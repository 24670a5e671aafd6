-- ===== src/Injection.antt =====
-- lumo/security: the injection scan. A text is the list of its code points. Unicode's NFKC form
-- and the regular expressions are parameters.
pub mod Clean
mod Patterns
use lumo.Base.{
  ℕ, Bool, true, false, not, ◌||◌, List, [], ◌∷◌, ◌++◌, map, String, nat_eq, any, select,
  if◌then◌else◌, Option, none, some, or_default,
}
use lumo.Injection.Patterns.{patterns, stellar_address}

abbrev pub Text : Type 0
Text = List ℕ

-- ZERO_WIDTH of patterns.py
abbrev pub zero_width : List ℕ
zero_width =
    0x200b ∷ 0x200c ∷ 0x200d ∷ 0x200e ∷ 0x200f ∷ 0x2060 ∷ 0x2061 ∷ 0x2062 ∷ 0x2063 ∷ 0x2064 ∷ 0xfeff
    ∷ 0x00ad ∷ []

abbrev pub is_zero_width : ℕ → Bool
is_zero_width c = any (nat_eq c) zero_width

-- _HOMOGLYPHS of injection.py: Cyrillic letters and the Latin ones that they look like
abbrev pub homoglyphs : List (ℕ × ℕ)
homoglyphs =
    (0x430, b'a')
    ∷ (0x410, b'A')
    ∷ (0x435, b'e')
    ∷ (0x415, b'E')
    ∷ (0x43e, b'o')
    ∷ (0x41e, b'O')
    ∷ (0x440, b'p')
    ∷ (0x420, b'P')
    ∷ (0x441, b'c')
    ∷ (0x421, b'C')
    ∷ (0x445, b'x')
    ∷ (0x425, b'X')
    ∷ (0x443, b'y')
    ∷ (0x423, b'Y')
    ∷ (0x456, b'i')
    ∷ (0x406, b'I')
    ∷ (0x455, b's')
    ∷ (0x405, b'S')
    ∷ (0x458, b'j')
    ∷ (0x408, b'J')
    ∷ []

abbrev pub translate : List (ℕ × ℕ) → ℕ → ℕ
translate [] c = c
translate ((a, b) ∷ t) c = if nat_eq a c then b else translate t c

unfoldable pub strip_hidden : Text → Text
strip_hidden t = select (λ c. not (is_zero_width c)) t

unfoldable pub fold_homoglyphs : Text → Text
fold_homoglyphs t = map (translate homoglyphs) t

-- `stripped != nfkc`, as `any` character that the first translation drops
abbrev pub text_eq : Text → Text → Bool
text_eq [] [] = true
text_eq (a ∷ s) (b ∷ t) = if nat_eq a b then text_eq s t else false
text_eq _ _ = false

pub record ScanResult : Type 0 where
  pub flags : List String
  pub normalized_text : Text
  pub addresses : List String

-- What the scan takes from Unicode and from `re`, with IGNORECASE: whether an expression is found
-- in a text, and all that it finds.
pub record Scanner : Type 0 where
  pub nfkc : Text → Text
  pub search : String → Text → Bool
  pub find_all : String → Text → List String

module _ (sc : Scanner) where
  unfoldable pub normalize : Text → Text × Bool
  unfolding strip_hidden fold_homoglyphs
  normalize text =
      let nfkc = sc.nfkc text in
      let stripped = strip_hidden nfkc in (fold_homoglyphs stripped, not (text_eq stripped nfkc))

  unfoldable pub scan : Text → ScanResult
  unfolding normalize
  scan text =
      let (normalized, had_hidden) = normalize text in
      record {
        flags =
            (if had_hidden then "HIDDEN_UNICODE" ∷ [] else [])
            ++ map (λ p. p.0) (select (λ p. sc.search p.1 normalized) patterns);
        normalized_text = normalized;
        addresses = sc.find_all stellar_address normalized;
      }
