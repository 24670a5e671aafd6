-- ===== src/Db/Ulid.antt =====
-- lumo/db/ulid.py: ids that begin with their time stamp. A text is the list of its characters, and
-- `entropy` is the number that the ten random bytes are.
pub mod RoundTrip
use Prim.Native.Nat.{suc}
use lumo.Base.{
  ℕ, zero, ◌+◌, ◌*◌, ◌/◌, ◌%◌, ◌^◌, Option, none, some, List, [], ◌∷◌, nat_eq, if◌then◌else◌, map,
  Result, ok, err, value_error,
}

-- ALPHABET
abbrev pub alphabet : List ℕ
alphabet =
    b'0' ∷ b'1' ∷ b'2' ∷ b'3' ∷ b'4' ∷ b'5' ∷ b'6' ∷ b'7' ∷ b'8' ∷ b'9' ∷ b'A' ∷ b'B' ∷ b'C' ∷ b'D'
    ∷ b'E' ∷ b'F' ∷ b'G' ∷ b'H' ∷ b'J' ∷ b'K' ∷ b'M' ∷ b'N' ∷ b'P' ∷ b'Q' ∷ b'R' ∷ b'S' ∷ b'T'
    ∷ b'V' ∷ b'W' ∷ b'X' ∷ b'Y' ∷ b'Z' ∷ []

-- `ALPHABET[n]`, for an index in range
abbrev pub char_at : ℕ → List ℕ → ℕ
char_at n [] = 0
char_at zero (c ∷ cs) = c
char_at (suc n) (c ∷ cs) = char_at n cs

-- `range(5 * n - 5, -1, -5)`
abbrev pub shifts : ℕ → List ℕ
shifts zero = []
shifts (suc n) = 5 * n ∷ shifts n

-- `ALPHABET[(value >> shift) & 0x1F]`
unfoldable pub digit : ℕ → ℕ → ℕ
digit value shift = char_at (value / 2 ^ shift % 32) alphabet

abbrev pub id_value : ℕ → ℕ → ℕ
id_value ts entropy = ts * 2 ^ 80 + entropy

unfoldable pub new : ℕ → ℕ → List ℕ
unfolding digit
new ts entropy = map (digit (id_value ts entropy)) (shifts 26)

-- `ALPHABET.index(ch)`, counted from `n`
abbrev pub index_from : ℕ → ℕ → List ℕ → Option ℕ
index_from n c [] = none
index_from n c (d ∷ ds) = if nat_eq d c then some n else index_from (suc n) c ds

unfoldable pub index : ℕ → Option ℕ
index c = index_from 0 c alphabet

-- the loop; `(value << 5) | i` for an index below 32
unfoldable pub read_from : ℕ → List ℕ → Result ℕ
unfolding index
read_from value [] = ok value
read_from value (c ∷ cs) = elim (index c) [
  | none ↦ err value_error
  | some i ↦ read_from (value * 32 + i) cs
]

unfoldable pub timestamp_ms : List ℕ → Result ℕ
unfolding read_from
timestamp_ms ulid = elim (read_from 0 ulid) [ ok value ↦ ok (value / 2 ^ 80) | err e ↦ err e ]
