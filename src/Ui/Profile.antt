-- ===== src/Ui/Profile.antt =====
-- The profile that is shown is the one that the configuration was made from.
use lumo.Base.{
  ◌≡◌, refl, subst, sym, ap, String, ◌==◌, eq_iff, Result, ok, err, Bool-cases, inl, inr, arith,
}
use lumo.Config.{Config, profile, post_init}
use lumo.Ui.{trust_profile}

value_or : {A : Type 0} → A → Result A → A
value_or a (ok b) = b
value_or a (err e) = a

ok_inj : {A : Type 0} (a b : A) → ok a ≡ ok b → a ≡ b
unfolding value_or
ok_inj a b h = ap (value_or a) h

abbrev Shows : (String → String) → String → Type 0
Shows strip name = (c : Config) → profile strip name (λ x. x) ≡ ok c → trust_profile c ≡ name

module _ (strip : String → String) where
  strict-Shows : Shows strip "strict"
  unfolding trust_profile profile post_init
  strict-Shows c h = subst (λ x. trust_profile x ≡ "strict") (ok_inj _ c h) refl

  balanced-Shows : Shows strip "balanced"
  unfolding trust_profile profile post_init
  balanced-Shows c h = subst (λ x. trust_profile x ≡ "balanced") (ok_inj _ c h) refl

  fast-Shows : Shows strip "fast"
  unfolding trust_profile profile post_init
  fast-Shows c h = subst (λ x. trust_profile x ≡ "fast") (ok_inj _ c h) refl

  pub trust_profile-profile :
      (name : String) (c : Config) → profile strip name (λ x. x) ≡ ok c → trust_profile c ≡ name
  unfolding profile
  trust_profile-profile name c h = elim (Bool-cases (name == "strict")) [
    | inl a ↦ subst (Shows strip) (sym ((eq_iff name "strict").0 a)) strict-Shows c h
    | inr a ↦ elim (Bool-cases (name == "balanced")) [
      | inl b ↦ subst (Shows strip) (sym ((eq_iff name "balanced").0 b)) balanced-Shows c h
      | inr b ↦ elim (Bool-cases (name == "fast")) [
        | inl d ↦ subst (Shows strip) (sym ((eq_iff name "fast").0 d)) fast-Shows c h
        | inr d ↦ (let h1 = rw (profile, a, b, d) at h in absurd (ground arith))
      ]
    ]
  ]
