-- ===== src/Pipeline/Amount.antt =====
-- lumo/pipeline.py: amounts. Python's `Decimal` and the regular expressions are parameters.
use Prim.Native.Char.{code}
use mathlib.Core.Option
use lumo.Base.{ℤ, Bool, Option, none, some, List, [], ◌∷◌, String, nat_eq, any, if◌then◌else◌}
use lumo.Injection.{Text}

-- `Decimal`, as far as the pipeline uses it.
pub record Decimals (D : Type 0) : Type 0 where
  -- `Decimal(text)`, if that is a number or one of the special values
  pub parse : String → Option D
  pub is_finite : D → Bool
  -- `value * STROOP`, if that does not overflow
  pub times_stroop : D → Option D
  -- `int(value)`, if the value is an integer
  pub to_integer : D → Option ℤ
  -- `Decimal(amount) / STROOP`
  pub of_stroops : ℤ → D
  pub equal : D → D → Bool

-- What the regular expressions find.
pub record AmountPatterns : Type 0 where
  -- the first number on each line with a payment label
  pub labeled : Text → List String
  -- every number in the text
  pub numbers : Text → List String
  -- the number, if the whole text is one number and an optional currency
  pub human_amount : String → Option String

-- `token.replace(",", "")`
unfoldable pub remove_commas : String → String
remove_commas String.[] = String.[]
remove_commas (String.◌∷◌ c s) =
    if nat_eq (code c) b',' then remove_commas s else String.◌∷◌ c (remove_commas s)

module _ {D : Type 0} (dec : Decimals D) (pat : AmountPatterns) where
  -- the tokens that are numbers
  abbrev pub parse_all : List String → List D
  parse_all [] = []
  parse_all (t ∷ ts) = elim (dec.parse (remove_commas t)) [
    | none ↦ parse_all ts
    | some d ↦ d ∷ parse_all ts
  ]

  unfoldable pub labeled_amounts : Text → List D
  labeled_amounts text = parse_all (pat.labeled text)

  unfoldable pub amount_tokens : Text → List D
  amount_tokens text = parse_all (pat.numbers text)

  unfoldable pub amount_matches_text : ℤ → Text → Bool
  amount_matches_text stroops text =
      let target = dec.of_stroops stroops in
      elim (labeled_amounts text) [
        | [] ↦ any (dec.equal target) (amount_tokens text)
        | d ∷ ds ↦ any (dec.equal target) (d ∷ ds)
      ]

  -- `_normalize_amount`
  unfoldable pub normalize_amount : String → Option String
  normalize_amount amount = Option.map remove_commas (pat.human_amount amount)

  abbrev stroops_of : D → Option ℤ
  stroops_of value =
      if dec.is_finite value
      then elim (dec.times_stroop value) [ none ↦ none | some s ↦ dec.to_integer s ]
      else none

  -- the loop over the candidates; only one that is no number lets the next be tried
  abbrev first_stroops : List (Option String) → Option ℤ
  first_stroops [] = none
  first_stroops (none ∷ cs) = first_stroops cs
  first_stroops (some c ∷ cs) = elim (dec.parse c) [
    | none ↦ first_stroops cs
    | some value ↦ stroops_of value
  ]

  unfoldable pub to_stroops : Option String → Option ℤ
  unfolding normalize_amount
  to_stroops none = none
  to_stroops (some amount) = first_stroops (some amount ∷ normalize_amount amount ∷ [])
