-- ===== src/Injection/Clean.antt =====
-- What the injection scan leaves in a text, and when it reports hidden characters.
use lumo.Base.{
  ℕ, ◌≤◌, ◌≡◌, refl, ap, ◌∙◌, Bool, true, false, not, List, [], ◌∷◌, nat_eq, any, all, length,
  Bool-cases, inl, inr, ◌⊎◌, All, arith,
}
use lumo.Injection.{
  Text, is_zero_width, homoglyphs, translate, strip_hidden, fold_homoglyphs, text_eq, Scanner,
  normalize,
}

not-true : (b : Bool) → not b ≡ true → b ≡ false
not-true true h = ground arith
not-true false h = refl

nat_eq-true : (a b : ℕ) → nat_eq a b ≡ true → a ≡ b
nat_eq-true a b h = ground arith

-- Translation yields the right side of an entry, or the character itself.
translate-cases :
    (p : ℕ → Bool) (t : List (ℕ × ℕ)) (c : ℕ)
    → all (λ e. p e.1) t ≡ true
    → (translate t c ≡ c) ⊎ (p (translate t c) ≡ true)
translate-cases p [] c h = inl refl
translate-cases p ((a, b) ∷ t) c h = elim (Bool-cases (nat_eq a c)) [
  | inl hit ↦ inr (rw hit (ground arith))
  | inr miss ↦ rw miss (translate-cases p t c (ground arith))
]

translate-visible :
    (c : ℕ) → is_zero_width c ≡ false → is_zero_width (translate homoglyphs c) ≡ false
translate-visible c v = elim (translate-cases (λ b. not (is_zero_width b)) homoglyphs c refl) [
  | inl same ↦ ap is_zero_width same ∙ v
  | inr good ↦ not-true _ good
]

translate_idem : (c : ℕ) → translate homoglyphs (translate homoglyphs c) ≡ translate homoglyphs c
translate_idem c =
    elim (translate-cases (λ b. nat_eq (translate homoglyphs b) b) homoglyphs c refl) [
      | inl same ↦ ap (translate homoglyphs) same
      | inr good ↦
          nat_eq-true (translate homoglyphs (translate homoglyphs c)) (translate homoglyphs c) good
    ]

clean_text :
    (t : Text)
    → All
        (λ c. (is_zero_width c ≡ false) × (translate homoglyphs c ≡ c))
        (fold_homoglyphs (strip_hidden t))
unfolding fold_homoglyphs strip_hidden
clean_text [] = tt
clean_text (c ∷ t) = elim (Bool-cases (is_zero_width c)) [
  | inl hidden ↦ rw hidden (clean_text t)
  | inr v ↦ rw v ((translate-visible c v, translate_idem c), clean_text t)
]

text_eq-length : (s t : Text) → text_eq s t ≡ true → length s ≡ length t
text_eq-length [] [] h = refl
text_eq-length [] (b ∷ t) h = ground arith
text_eq-length (a ∷ s) [] h = ground arith
text_eq-length (a ∷ s) (b ∷ t) h = ground (arith, text_eq-length s t)

length-strip_hidden : (t : Text) → length (strip_hidden t) ≤ length t
unfolding strip_hidden
length-strip_hidden [] = omega arith
length-strip_hidden (c ∷ t) = elim (Bool-cases (is_zero_width c)) [
  | inl hidden ↦ rw hidden (let e = length-strip_hidden t in omega arith)
  | inr v ↦ rw v (let e = length-strip_hidden t in omega arith)
]

shorter : (c : ℕ) (s t : Text) → length s ≤ length t → text_eq s (c ∷ t) ≡ false
shorter c s t h = elim (Bool-cases (text_eq s (c ∷ t))) [
  | inl same ↦ (let e = text_eq-length s (c ∷ t) same in absurd (omega arith))
  | inr other_ ↦ other_
]

hidden_found : (t : Text) → not (text_eq (strip_hidden t) t) ≡ any is_zero_width t
unfolding strip_hidden
hidden_found [] = refl
hidden_found (c ∷ t) = elim (Bool-cases (is_zero_width c)) [
  | inl hidden ↦ rw (hidden, shorter c (strip_hidden t) t (length-strip_hidden t)) refl
  | inr v ↦ rw (v, let same : nat_eq c c ≡ true = ground arith in same) (hidden_found t)
]

-- The normalised text of a scan has no zero-width character and no letter of the table of
-- homoglyphs, and a scan takes note of hidden characters exactly if the NFKC form has one.
pub normalize_lem :
    (sc : Scanner) (text : Text)
    → let (normalized, had_hidden) = normalize sc text in
      All (λ c. (is_zero_width c ≡ false) × (translate homoglyphs c ≡ c)) normalized
      × (had_hidden ≡ any is_zero_width (sc.nfkc text))
unfolding normalize
normalize_lem sc text = (clean_text (sc.nfkc text), hidden_found (sc.nfkc text))
