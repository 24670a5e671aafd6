-- ===== src/Injection/Patterns.antt =====
-- lumo/security/patterns.py: the regular expressions, as their texts. Each is compiled with
-- IGNORECASE.
use Prim.Native.String.{String, ◌++◌ as str_append}
use mathlib.Core.List.{List, [], ◌∷◌}

infixr 5 ◌+++◌
abbrev ◌+++◌ : String → String → String
a +++ b = str_append a b

-- _SEP
abbrev sep : String
sep = "[\\W_]+"

-- _SEP0
abbrev sep0 : String
sep0 = "[\\W_]*"

abbrev override_phrase : String
override_phrase =
    "(ignore|disregard|forget)" +++ sep +++ "(all" +++ sep +++ ")?(previous|prior|above|earlier)"
    +++ sep +++ "(instructions|rules|prompts|policies)"

abbrev system_override : String
system_override =
    "new" +++ sep +++ "(system" +++ sep +++ ")?(instructions|policy)" +++ sep0 +++ ":|you" +++ sep
    +++ "are" +++ sep +++ "now" +++ sep +++ "|system" +++ sep +++ "prompt"

abbrev role_tag : String
role_tag =
    "</?" +++ sep0 +++ "(system|assistant|tool)" +++ sep0
    +++ ">|\\[/?(SYSTEM|INST)\\]|<\\|im_(start|end)\\|>"

abbrev address_change : String
address_change =
    "(payment|bank|wallet|beneficiary)" +++ sep +++ "(address|account|details)" +++ sep +++ "(has"
    +++ sep +++ "|have" +++ sep +++ ")?(been" +++ sep +++ ")?(changed|updated)|send" +++ sep
    +++ "(the" +++ sep +++ ")?(payment|funds|money)" +++ sep +++ "to" +++ sep +++ "(this" +++ sep
    +++ "|the" +++ sep +++ ")?new" +++ sep +++ "address|do" +++ sep +++ "not" +++ sep
    +++ "(use|pay)" +++ sep +++ "the" +++ sep +++ "(usual|registered|old|previous)"

-- PATTERNS: a flag and its expression
abbrev pub patterns : List (String × String)
patterns =
    ("OVERRIDE_PHRASE", override_phrase)
    ∷ ("SYSTEM_OVERRIDE", system_override)
    ∷ ("ROLE_TAG", role_tag)
    ∷ ("ADDRESS_CHANGE", address_change)
    ∷ []

-- STELLAR_ADDRESS
abbrev pub stellar_address : String
stellar_address = "G[A-Z2-7]{55}"
