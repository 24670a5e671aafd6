-- ===== src/Json.antt =====
-- JSON values as `json.loads` gives them and `json.dumps` takes them: objects are dictionaries,
-- their keys differ. Numbers that are not integers are kept as their text.
use lumo.Base.{ℤ, Bool, true, false, Option, none, some, List, [], ◌∷◌, String, ◌==◌, if◌then◌else◌}

mutual
  pub data Json : Type 0 where
    null : Json
    boolean : Bool → Json
    number : ℤ → Json
    decimal : String → Json
    text : String → Json
    array : Items → Json
    object : Fields → Json

  pub data Items : Type 0 where
    no_items : Items
    item : Json → Items → Items

  pub data Fields : Type 0 where
    no_fields : Fields
    field : String → Json → Fields → Fields

-- `d.get(key)`, where none means that the key is not there
abbrev pub member : String → Fields → Option Json
member key no_fields = none
member key (field k v rest) = let found = member key rest in if k == key then some v else found

abbrev pub fields : List (String × Json) → Fields
fields [] = no_fields
fields ((k, v) ∷ rest) = field k v (fields rest)

-- `{k: v, …}` and `[v, …]`
abbrev pub dict : List (String × Json) → Json
dict kvs = object (fields kvs)

abbrev pub items : List Json → Items
items [] = no_items
items (v ∷ vs) = item v (items vs)

abbrev pub list : List Json → Json
list vs = array (items vs)

-- Python's hash of the value: a list or a dictionary has none.
abbrev pub is_hashable : Json → Bool
is_hashable (array vs) = false
is_hashable (object fs) = false
is_hashable _ = true

abbrev pub is_null : Json → Bool
is_null null = true
is_null _ = false

-- the value is that text
abbrev pub is_text : String → Json → Bool
is_text s (text t) = t == s
is_text s _ = false
