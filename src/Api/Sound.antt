-- ===== src/Api/Sound.antt =====
-- Lists of URLs that have been checked and are there once each.
use lumo.Base.{
  ℕ, ◌+◌, ◌≤◌, ◌≡◌, refl, subst, false, Option, none, some, List, [], ◌∷◌, ◌++◌, String, ◌==◌,
  eq_iff, if◌then◌else◌, elem, All, row_count, ok, Bool-cases, inl, inr, arith,
}
use lumo.Api.{Services}

-- The check of the URL passed in some state.
abbrev pub Passed : {W : Type 0} → Services W → String → Type 0
Passed {W} sv url = (w : W) × ((sv.validate_url url w).0 ≡ ok tt)

abbrev pub urls_of : Option (List String) → List String
urls_of none = []
urls_of (some urls) = urls

abbrev pub occurrences : String → List String → ℕ
occurrences url urls = row_count (λ u. u == url) urls

pub record IsSound {W : Type 0} (sv : Services W) (urls : List String) : Type 0 where
  pub passed : All (Passed sv) urls
  pub once : (url : String) → occurrences url urls ≤ 1

occurrences-append :
    (u v : String) (urls : List String)
    → occurrences u (urls ++ v ∷ []) ≡ occurrences u urls + (if v == u then 1 else 0)
occurrences-append u v [] = ground arith
occurrences-append u v (x ∷ urls) = ground (arith, occurrences-append u v urls)

occurrences-absent :
    (u : String) (urls : List String) → elem u urls ≡ false → occurrences u urls ≡ 0
occurrences-absent u [] h = refl
occurrences-absent u (x ∷ urls) h = ground (arith, occurrences-absent u urls)

module _ {W : Type 0} (sv : Services W) where
  All-append :
      (urls : List String) (u : String)
      → All (Passed sv) urls
      → Passed sv u
      → All (Passed sv) (urls ++ u ∷ [])
  All-append [] u h p = (p, tt)
  All-append (a ∷ urls) u (h, hs) p = (h, All-append urls u hs p)

  pub IsSound-append :
      (urls : List String) (u : String)
      → elem u urls ≡ false
      → Passed sv u
      → IsSound sv urls
      → IsSound sv (urls ++ u ∷ [])
  IsSound-append urls u new p o = record {
    passed = All-append urls u o.passed p;
    once = λ v. elim (Bool-cases (u == v)) [
      | inl same ↦
          (let absent = occurrences-absent u urls new in
            let e : u ≡ v = (eq_iff u v).0 same in
            let gone : occurrences v urls ≡ 0 = subst (λ x. occurrences x urls ≡ 0) e absent in
            ground (arith, occurrences-append v u urls))
      | inr differ ↦ (let h = o.once v in ground (arith, occurrences-append v u urls))
    ];
  }
