-- ===== src/Base/Tables.antt =====
-- A SQL table as the list of its rows in insertion order, with `SELECT`, `UPDATE … WHERE` and
-- `count(*)`, and a Python dict with text keys as an association list.
use Prim.Native.Nat.{ℕ, suc}
use Prim.Native.String.{String}
use mathlib.Core.Path.{◌≡◌, refl}
use mathlib.Core.Bool.{Bool, true, false, ◌&&◌, ◌||◌}
use mathlib.Core.Option
use mathlib.Core.Option.{Option, none, some}
use mathlib.Core.List.{List, [], ◌∷◌, ◌++◌}
use native.Mathlib.Omega.{arith}
use text.Mathlib.Text.{◌==◌}
use text.Mathlib.TextEquality.{eq_iff}
use lumo.Base.Tests.{if◌then◌else◌}

module _ {ℓ} {A : Type ℓ} where
  abbrev pub length : List A → ℕ
  length [] = 0
  length (x ∷ xs) = suc (length xs)

  -- `fetchone` of a `SELECT … WHERE`
  abbrev pub find : (A → Bool) → List A → Option A
  find p [] = none
  find p (r ∷ rs) = if p r then some r else find p rs

  -- `fetchall` of a `SELECT … WHERE`
  abbrev pub select : (A → Bool) → List A → List A
  select p [] = []
  select p (r ∷ rs) = let rest = select p rs in if p r then r ∷ rest else rest

  -- `UPDATE … SET … WHERE`
  abbrev pub update : (A → Bool) → (A → A) → List A → List A
  update p f [] = []
  update p f (r ∷ rs) = (if p r then f r else r) ∷ update p f rs

  -- the `rowcount` of such an update
  abbrev pub row_count : (A → Bool) → List A → ℕ
  row_count p [] = 0
  row_count p (r ∷ rs) = if p r then suc (row_count p rs) else row_count p rs

  abbrev pub any : (A → Bool) → List A → Bool
  any p [] = false
  any p (r ∷ rs) = p r || any p rs

  abbrev pub all : (A → Bool) → List A → Bool
  all p [] = true
  all p (r ∷ rs) = p r && all p rs

  abbrev pub All {κ} : (A → Type κ) → List A → Type κ
  All P [] = Unit
  All P (r ∷ rs) = P r × All P rs

  -- An update whose rows keep their place under `p` acts on the row that `p` finds.
  pub find-update :
      (p q : A → Bool) (f : A → A)
      → ((r : A) → p (f r) ≡ p r)
      → (rs : List A)
      → find p (update q f rs) ≡ Option.map (λ r. if q r then f r else r) (find p rs)
  find-update p q f keep [] = refl
  find-update p q f keep (r ∷ rs) = ground (arith, keep r, find-update p q f keep rs)

  pub find-append :
      (p : A → Bool) (rs : List A) (r : A)
      → any p rs ≡ false
      → find p (rs ++ r ∷ []) ≡ (if p r then some r else none)
  find-append p [] r h = refl
  find-append p (x ∷ rs) r h = ground (arith, find-append p rs r)

  pub find-append_old :
      (p : A → Bool) (rs : List A) (r : A) → p r ≡ false → find p (rs ++ r ∷ []) ≡ find p rs
  find-append_old p [] r h = ground arith
  find-append_old p (x ∷ rs) r h = ground (arith, find-append_old p rs r h)

  pub find-eq-none : (p : A → Bool) (rs : List A) → any p rs ≡ false → find p rs ≡ none
  find-eq-none p [] h = refl
  find-eq-none p (x ∷ rs) h = ground (arith, find-eq-none p rs)

  pub find-holds : (p : A → Bool) (rs : List A) {r : A} → find p rs ≡ some r → p r ≡ true
  find-holds p [] h = ground arith
  find-holds p (x ∷ rs) {r} h = ground (arith, find-holds p rs {r = r})

-- A Python dict with text keys.
module _ {ℓ} {V : Type ℓ} where
  abbrev pub lookup : String → List (String × V) → Option V
  lookup k [] = none
  lookup k ((j, v) ∷ d) = if j == k then some v else lookup k d

  -- `d[k] = v`; `INSERT … ON CONFLICT(key) DO UPDATE`
  abbrev pub insert : String → V → List (String × V) → List (String × V)
  insert k v [] = (k, v) ∷ []
  insert k v ((j, w) ∷ d) = if j == k then (k, v) ∷ d else (j, w) ∷ insert k v d

  pub lookup-insert :
      (k j : String) (v : V) (d : List (String × V))
      → lookup j (insert k v d) ≡ (if k == j then some v else lookup j d)
  lookup-insert k j v [] = refl
  lookup-insert k j v ((i, w) ∷ d) =
      ground (arith, eq_iff k j, eq_iff i k, eq_iff i j, lookup-insert k j v d)

-- membership of a text in a list or a set
abbrev pub elem : String → List String → Bool
elem x xs = any (λ y. y == x) xs
