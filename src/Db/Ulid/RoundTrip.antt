-- ===== src/Db/Ulid/RoundTrip.antt =====
-- Reading an id gives back its time stamp.
use native.Mathlib.Nat.{pow-suc, div-div-eq-div-mul}
use lumo.Base.{
  ℕ, zero, suc, ◌+◌, ◌*◌, ◌/◌, ◌%◌, ◌^◌, ◌<◌, ◌≡◌, refl, sym, ap, subst, ◌∙◌, Bool, true, ◌&&◌,
  Option, none, some, List, ◌∷◌, nat_eq, map, ok, arith,
}
use lumo.Db.Ulid.{alphabet, char_at, shifts, digit, id_value, new, index, read_from, timestamp_ms}

-- Over the alphabet, check every index by evaluation.
abbrev is_index : ℕ → Option ℕ → Bool
is_index n none = Bool.false
is_index n (some m) = nat_eq m n

abbrev all_below : ℕ → (ℕ → Bool) → Bool
all_below zero p = true
all_below (suc n) p = p n && all_below n p

all_below_holds : (n : ℕ) (p : ℕ → Bool) (x : ℕ) → all_below n p ≡ true → x < n → p x ≡ true
all_below_holds zero p x h lt = absurd (omega arith)
all_below_holds (suc n) p x h lt = ground (arith, all_below_holds n p x)

index_found : (n : ℕ) (o : Option ℕ) → is_index n o ≡ true → o ≡ some n
index_found n none h = ground arith
index_found n (some m) h = ground arith

index-char_at : (n : ℕ) → n < 32 → index (char_at n alphabet) ≡ some n
unfolding index
index-char_at n h =
    index_found n (index (char_at n alphabet))
      (all_below_holds 32 (λ n. is_index n (index (char_at n alphabet))) n refl h)

index-digit : (v shift : ℕ) → index (digit v shift) ≡ some (v / 2 ^ shift % 32)
unfolding digit
index-digit v shift = index-char_at (v / 2 ^ shift % 32) (omega arith)

five_bits : (m : ℕ) → 2 ^ suc (suc (suc (suc (suc m)))) ≡ 2 ^ m * 32
five_bits m = omega (
  arith,
  pow-suc 2 m,
  pow-suc 2 (suc m),
  pow-suc 2 (suc (suc m)),
  pow-suc 2 (suc (suc (suc m))),
  pow-suc 2 (suc (suc (suc (suc m)))),
)

-- A digit more is read.
next_digit : (v n : ℕ) → v / 2 ^ (5 * suc n) * 32 + v / 2 ^ (5 * n) % 32 ≡ v / 2 ^ (5 * n)
next_digit v n =
    let power : 2 ^ (5 * suc n) ≡ 2 ^ (5 * n) * 32 =
      ap (λ k. 2 ^ k) (let e : 5 * suc n ≡ suc (suc (suc (suc (suc (5 * n))))) = omega arith in e)
      ∙ five_bits (5 * n) in
    let split : v / 2 ^ (5 * suc n) ≡ v / 2 ^ (5 * n) / 32 =
      ap (λ m. v / m) power ∙ sym (div-div-eq-div-mul v (2 ^ (5 * n)) 32) in
    rw split (omega arith)

read_step :
    (a i c : ℕ) (cs : List ℕ) → index c ≡ some i → read_from a (c ∷ cs) ≡ read_from (a * 32 + i) cs
unfolding read_from
read_step a i c cs h = rw (read_from, h) refl

read_digits : (v n : ℕ) → read_from (v / 2 ^ (5 * n)) (map (digit v) (shifts n)) ≡ ok v
unfolding read_from
read_digits v zero = ap ok (let e : v / 1 ≡ v = omega arith in e)
read_digits v (suc n) =
    read_step (v / 2 ^ (5 * suc n)) (v / 2 ^ (5 * n) % 32) (digit v (5 * n))
      (map (digit v) (shifts n)) (index-digit v (5 * n))
    ∙ (ap (λ a. read_from a (map (digit v) (shifts n))) (next_digit v n) ∙ read_digits v n)

read_from-new :
    (ts entropy : ℕ)
    → ts < 2 ^ 50
    → entropy < 2 ^ 80
    → read_from 0 (new ts entropy) ≡ ok (id_value ts entropy)
unfolding new
read_from-new ts entropy h e =
    let v = id_value ts entropy in
    let start : v / 2 ^ (5 * 26) ≡ 0 = omega arith in
    subst (λ a. read_from a (map (digit v) (shifts 26)) ≡ ok v) start (read_digits v 26)

-- A time stamp in milliseconds below 2 ^ 50 is read back from an id that was made of it, whatever
-- the random bytes are.
pub timestamp_ms-new :
    (ts entropy : ℕ) → ts < 2 ^ 50 → entropy < 2 ^ 80 → timestamp_ms (new ts entropy) ≡ ok ts
unfolding timestamp_ms
timestamp_ms-new ts entropy h e =
    rw (timestamp_ms, read_from-new ts entropy h e) (ap ok (omega arith))
