-- ===== src/Db/Evolves.antt =====
-- How the rows of `intents` may change: no row appears, disappears or changes its keys, and none
-- becomes proposed again.
use lumo.Base.{
  ◌≤◌, ◌<◌, ◌≡◌, refl, ◌∙◌, sym, Bool, true, false, ◌&&◌, some, List, [], ◌∷◌, String, ◌==◌,
  Bool-cases, inl, inr, find, update, row_count, All, arith,
}
use lumo.Db.Rows.{Intent}
use lumo.Db.Queries.{is_proposed}

abbrev pub Keeps : Intent → Intent → Type 0
Keeps r r' =
    (r'.id ≡ r.id)
    × (r'.request_hash ≡ r.request_hash)
    × (is_proposed r' ≡ true → is_proposed r ≡ true)

abbrev pub Evolves : List Intent → List Intent → Type 0
Evolves [] [] = Unit
Evolves [] (_ ∷ _) = ⊥
Evolves (_ ∷ _) [] = ⊥
Evolves (r ∷ rs) (r' ∷ rs') = Keeps r r' × Evolves rs rs'

pub Evolves-refl : (rs : List Intent) → Evolves rs rs
Evolves-refl [] = tt
Evolves-refl (r ∷ rs) = ((refl, refl, λ h. h), Evolves-refl rs)

pub Evolves-trans : (rs ss ts : List Intent) → Evolves rs ss → Evolves ss ts → Evolves rs ts
Evolves-trans [] [] ts h k = k
Evolves-trans [] (s ∷ ss) ts h k = absurd h
Evolves-trans (r ∷ rs) [] ts h k = absurd h
Evolves-trans (r ∷ rs) (s ∷ ss) [] h k = absurd k
Evolves-trans (r ∷ rs) (s ∷ ss) (t ∷ ts) (h, hs) (k, ks) =
    ((k.0 ∙ h.0, k.1 ∙ h.1, λ p. h.2 (k.2 p)), Evolves-trans rs ss ts hs ks)

-- An update keeps to this if each write does.
pub Evolves-update :
    (p : Intent → Bool) (f : Intent → Intent)
    → ((r : Intent) → p r ≡ true → Keeps r (f r))
    → (rs : List Intent) → Evolves rs (update p f rs)
Evolves-update p f good [] = tt
Evolves-update p f good (r ∷ rs) = elim (Bool-cases (p r)) [
  | inl hit ↦ rw hit (good r hit, Evolves-update p f good rs)
  | inr miss ↦ rw miss ((refl, refl, λ h. h), Evolves-update p f good rs)
]

-- Keys are counted alike before and after.
pub row_count-id :
    (i : String) (rs rs' : List Intent)
    → Evolves rs rs'
    → row_count (λ r. r.id == i) rs' ≡ row_count (λ r. r.id == i) rs
row_count-id i [] [] h = refl
row_count-id i [] (r ∷ rs) h = absurd h
row_count-id i (r ∷ rs) [] h = absurd h
row_count-id i (r ∷ rs) (r' ∷ rs') (h, hs) = rw (h.0, row_count-id i rs rs' hs) refl

pub row_count-hash :
    (k : String) (rs rs' : List Intent)
    → Evolves rs rs'
    → row_count (λ r. r.request_hash == k) rs' ≡ row_count (λ r. r.request_hash == k) rs
row_count-hash k [] [] h = refl
row_count-hash k [] (r ∷ rs) h = absurd h
row_count-hash k (r ∷ rs) [] h = absurd h
row_count-hash k (r ∷ rs) (r' ∷ rs') (h, hs) = rw (h.1, row_count-hash k rs rs' hs) refl

-- No row with that request hash is proposed.
abbrev pub IsLocked : String → List Intent → Type 0
IsLocked k rs = All (λ r. r.request_hash ≡ k → is_proposed r ≡ false) rs

pub IsLocked-Evolves :
    (k : String) (rs rs' : List Intent) → Evolves rs rs' → IsLocked k rs → IsLocked k rs'
IsLocked-Evolves k [] [] h l = tt
IsLocked-Evolves k [] (r ∷ rs) h l = absurd h
IsLocked-Evolves k (r ∷ rs) [] h l = absurd h
IsLocked-Evolves k (r ∷ rs) (r' ∷ rs') (h, hs) (l, ls) = (locked, IsLocked-Evolves k rs rs' hs ls)
  where
    locked : r'.request_hash ≡ k → is_proposed r' ≡ false
    locked e = elim (Bool-cases (is_proposed r')) [
      | inl p ↦ (let a = h.2 p in let b = l (sym h.1 ∙ e) in cc)
      | inr n ↦ n
    ]

module _ {A : Type 0} (p q : A → Bool) where
  pub count_of_found : (rs : List A) {r : A} → find p rs ≡ some r → q r ≡ true → 0 < row_count q rs
  count_of_found [] h k = ground arith
  count_of_found (x ∷ rs) {r} h k = ground (arith, count_of_found rs {r = r})

  none_counted : (rs : List A) → row_count q rs ≡ 0 → All (λ r. q r ≡ true → p r ≡ true) rs
  none_counted [] h = tt
  none_counted (x ∷ rs) h = (λ e. ground arith, none_counted rs (ground arith))

  -- If at most one row meets `q`, and the first to meet `p` does, then `q` implies `p`.
  pub unique_found :
      (rs : List A) {r : A}
      → find p rs ≡ some r
      → q r ≡ true
      → row_count q rs ≤ 1
      → All (λ x. q x ≡ true → p x ≡ true) rs
  unique_found [] h k u = tt
  unique_found (x ∷ rs) {r} h k u = elim (Bool-cases (p x)) [
    | inl first ↦ (λ e. first, none_counted rs (ground arith))
    | inr later ↦ (
      λ e. ground (arith, count_of_found rs {r = r}),
      unique_found rs {r = r} (ground arith) k (ground arith),
    )
  ]

  count_both_le : (rs : List A) → row_count (λ r. p r && q r) rs ≤ row_count p rs
  count_both_le [] = omega arith
  count_both_le (x ∷ rs) = ground (arith, count_both_le rs)

  none_left : (rs : List A) → row_count p rs ≡ 0 → All (λ r. p r ≡ true → q r ≡ true) rs
  none_left [] h = tt
  none_left (x ∷ rs) h = (λ e. ground arith, none_left rs (ground arith))

  -- If at most one row meets `p`, and some row meets both, then `p` implies `q`.
  pub unique_both :
      (rs : List A)
      → row_count p rs ≤ 1
      → 0 < row_count (λ r. p r && q r) rs
      → All (λ x. p x ≡ true → q x ≡ true) rs
  unique_both [] u c = absurd (omega arith)
  unique_both (x ∷ rs) u c = elim (Bool-cases (p x)) [
    | inl first ↦ (λ e. ground (arith, count_both_le rs), none_left rs (ground arith))
    | inr later ↦ (λ e. ground arith, unique_both rs (ground arith) (ground arith))
  ]
