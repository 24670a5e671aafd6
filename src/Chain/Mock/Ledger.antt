-- ===== src/Chain/Mock/Ledger.antt =====
-- `MockChainAdapter.balances`, a dict keyed by token and address, and the supply of a token.
use lumo.Base.{
  ℤ, pos, ◌+ℤ◌, ◌≡◌, refl, ap, pos_part, neg_part, Bool, true, false, ◌&&◌, Option, none, some,
  List, [], ◌∷◌, String, ◌==◌, eq_iff, Bool-cases, inl, inr, if◌then◌else◌, or_default, arith,
  int_laws,
}

abbrev pub Balances : Type 0
Balances = List (String × String × ℤ)

abbrev pub same_key : String × String → String × String → Bool
same_key (t, a) (u, b) = t == u && a == b

abbrev pub entry : String × String → Balances → Option ℤ
entry k [] = none
entry k ((t, a, v) ∷ bs) = if same_key (t, a) k then some v else entry k bs

-- `self.balances[k] = v`
abbrev pub put : String × String → ℤ → Balances → Balances
put (u, b) v [] = (u, b, v) ∷ []
put (u, b) v ((t, a, w) ∷ bs) =
    if same_key (t, a) (u, b) then (u, b, v) ∷ bs else (t, a, w) ∷ put (u, b) v bs

-- `self.balances.get(k, 0)`
abbrev pub balance : String × String → Balances → ℤ
balance k bs = or_default (entry k bs) (pos 0)

-- all that anybody holds of a token
unfoldable pub supply : String → Balances → ℤ
supply token [] = pos 0
supply token ((t, a, v) ∷ bs) = if t == token then v +ℤ supply token bs else supply token bs

pub entry-put :
    (u b t a : String) (v : ℤ) (bs : Balances)
    → entry (t, a) (put (u, b) v bs) ≡ (if same_key (u, b) (t, a) then some v else entry (t, a) bs)
entry-put u b t a v [] = refl
entry-put u b t a v ((x, y, w) ∷ bs) = ground (
  arith,
  entry-put u b t a v bs,
  eq_iff x u,
  eq_iff y b,
  eq_iff x t,
  eq_iff y a,
  eq_iff u t,
  eq_iff b a,
)

-- A token's sum before and after an entry `w` of it is replaced by `v`.
sum_replaced :
    (c : Bool) (v w s : ℤ)
    → (if c then v +ℤ s else s) +ℤ w
      ≡ (if c then (if c then w +ℤ s else s) +ℤ v else (if c then w +ℤ s else s) +ℤ w)
sum_replaced true v w s = omega int_laws
sum_replaced false v w s = refl

-- The same, where the replaced entry stands further down.
sum_below :
    (c d : Bool) (v w b s s' : ℤ)
    → s' +ℤ b ≡ (if c then s +ℤ v else s +ℤ b)
    → (if d then w +ℤ s' else s') +ℤ b
      ≡ (if c then (if d then w +ℤ s else s) +ℤ v else (if d then w +ℤ s else s) +ℤ b)
sum_below true true v w b s s' h = omega (int_laws, ap pos_part h, ap neg_part h)
sum_below true false v w b s s' h = h
sum_below false true v w b s s' h = omega (int_laws, ap pos_part h, ap neg_part h)
sum_below false false v w b s s' h = h

pub supply-put :
    (u b token : String) (v : ℤ) (bs : Balances)
    → supply token (put (u, b) v bs) +ℤ balance (u, b) bs
      ≡ (if u == token then supply token bs +ℤ v else supply token bs +ℤ balance (u, b) bs)
unfolding supply
supply-put u b token v [] = grind int_laws
supply-put u b token v ((x, y, w) ∷ bs) = elim (Bool-cases (same_key (x, y) (u, b))) [
  | inl same ↦
      (let e : x ≡ u = ground (arith, eq_iff x u) in
        rw (same, e) (sum_replaced (u == token) v w (supply token bs)))
  | inr other ↦ rw other (
      sum_below (u == token) (x == token) v w (balance (u, b) bs) (supply token bs)
        (supply token (put (u, b) v bs)) (supply-put u b token v bs))
]
