-- ===== src/Scripts/Enforcement/Status.antt =====
-- scripts/verify_policy_enforcement.py: what the exit status says of the verdicts.
use lumo.Base.{
  ℕ, ℤ, ◌+◌, ◌≡◌, ◌⊎◌, if◌then◌else◌, refl, ◌↔◌, inl, inr, Bool, some, List, [], ◌∷◌, String, ◌==◌,
  eq_iff, map, arith, Bool-cases, nat_eq,
}
use lumo.Scripts.Enforcement.{Sdk, Case, cases, check_auth_verdict, failures, main}

module _ (contains : String → String → Bool) {N Account Tx Entry : Type 0}
    (sdk : Sdk N Account Tx Entry) (policy : String) where
  -- The verdicts of cases that are tried one after another, and the world after them.
  pub data Tried : N → List Case → List String → N → Type 0 where
    none_left : {n : N} → Tried n [] [] n
    tried :
        {n m k : N} {c : Case} {cs : List Case} {v : String} {vs : List String}
        → check_auth_verdict contains sdk policy c.to_addr c.amount n ≡ (some v, m)
        → Tried m cs vs k
        → Tried n (c ∷ cs) (v ∷ vs) k

  -- a verdict more
  count_one :
      (v e : String) (vs es : List String) (f : ℕ)
      → ((f ≡ 0) ↔ (vs ≡ es))
      → ((if v == e then f else f + 1) ≡ 0) ↔ (v ∷ vs ≡ e ∷ es)
  count_one v e vs es f same = elim (Bool-cases (v == e)) [
    | inl fits ↦
        (let eq = (eq_iff v e).0 fits in
          (
            λ h. (let rest = same.0 (ground arith) in rw (eq, rest) refl),
            λ h. (let rest = same.1 (ground arith) in ground arith),
          ))
    | inr other ↦ (
      λ h. absurd (ground arith),
      λ h. (let hit = (eq_iff v e).1 (ground arith) in absurd (ground arith)),
    )
  ]

  failures-Tried :
      {n k : N} {cs : List Case} {vs : List String}
      → Tried n cs vs k
      → (f : ℕ) × (failures contains sdk policy cs n ≡ (some f, k))
        × ((f ≡ 0) ↔ (vs ≡ map (λ c. c.expected) cs))
  unfolding failures
  failures-Tried none_left = (0, refl, (λ _. refl, λ _. refl))
  failures-Tried (tried {c} {cs} {v} {vs} first rest) =
      let (f, e, same) = failures-Tried rest in
      (
        if v == c.expected then f else f + 1,
        rw (first, e) refl,
        count_one v c.expected vs (map (λ d. d.expected) cs) f same,
      )

  -- Where each of the three cases (to another recipient, above the cap, to the escrow) gets a
  -- verdict, tried one after another, the program ends with exit status 0 or 1, and with 0 exactly
  -- if the verdicts are RecipientNotAllowed, OverCap and AUTHORIZED.
  pub main_lem :
      (escrow other : String) (cap : ℤ) (n k : N) (to_other above within : String)
      → Tried n (cases escrow other cap) (to_other ∷ above ∷ within ∷ []) k
      → (status : ℕ) × (main contains sdk policy escrow other cap n ≡ (some status, k))
        × ((status ≡ 0) ⊎ (status ≡ 1))
        × ((status ≡ 0)
            ↔ ((to_other ≡ "RecipientNotAllowed") × (above ≡ "OverCap") × (within ≡ "AUTHORIZED")))
  unfolding main
  main_lem escrow other cap n k to_other above within t =
      let (f, e, same) = failures-Tried t in
      elim (Bool-cases (nat_eq f 0)) [
        | inl zero_ ↦ (
          0,
          rw (e, zero_) refl,
          inl refl,
          (
            λ h. (let all_ = same.0 (ground arith) in (ground arith, ground arith, ground arith)),
            λ h. refl,
          ),
        )
        | inr more ↦ (
          1,
          rw (e, more) refl,
          inr refl,
          (
            λ h. absurd (ground arith),
            λ h. (let none_ = same.1 (rw (h.0, h.1, h.2) refl) in absurd (ground arith)),
          ),
        )
      ]
