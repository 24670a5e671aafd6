-- ===== src/Flow/Execute/Holds.antt =====
-- What holds of the rows while submissions are on record.
use lumo.Base.{
  ℕ, ◌≤◌, ◌<◌, ◌≡◌, Bool, true, false, some, List, [], ◌∷◌, String, ◌==◌, eq_iff, subst, ◌≢◌, any,
  ◌++◌, Bool-cases, inl, inr, arith, find, row_count, All,
}
use lumo.Db.Preserved.{taken}
use lumo.Db.Unique.{row_fresh, added_id, added_hash, row_count-append}
use lumo.Db.Rows.{Intent}
use lumo.Db.Evolves.{Evolves, IsLocked, IsLocked-Evolves, row_count-id, row_count-hash}
use lumo.Flow.Execute.Claim.{IsClaimed}

pub found_holds :
    (P : Intent → Type 0) (p : Intent → Bool) (rs : List Intent) {row : Intent}
    → find p rs ≡ some row
    → All P rs
    → P row
found_holds P p [] h l = ground arith
found_holds P p (r ∷ rs) {row} h (l, ls) = elim (Bool-cases (p r)) [
  | inl hit ↦ (let e : r ≡ row = ground arith in rw (← e) l)
  | inr miss ↦ found_holds P p rs {row = row} (ground arith) ls
]

-- the rows with a request hash that all belong to one id
abbrev pub Names : String → String → List Intent → Type 0
Names k id rs = All (λ r. r.request_hash == k ≡ true → r.id == id ≡ true) rs

pub Names-Evolves :
    (k id : String) (rs rs' : List Intent) → Evolves rs rs' → Names k id rs → Names k id rs'
Names-Evolves k id [] [] h l = tt
Names-Evolves k id [] (r ∷ rs) h l = absurd h
Names-Evolves k id (r ∷ rs) [] h l = absurd h
Names-Evolves k id (r ∷ rs) (r' ∷ rs') (h, hs) (l, ls) =
    (λ e. rw h.0 (l (rw (← h.1) e)), Names-Evolves k id rs rs' hs ls)

pub Names-IsLocked :
    (k id : String) (rs : List Intent) → Names k id rs → IsClaimed id rs → IsLocked k rs
Names-IsLocked k id [] n c = tt
Names-IsLocked k id (r ∷ rs) (n, ns) (c, cs) =
    (λ e. c (n ((eq_iff r.request_hash k).1 e)), Names-IsLocked k id rs ns cs)

-- What holds of the rows while `n` submissions for the request hash are on record.
pub record Holds (k : String) (n : ℕ) (rs : List Intent) : Type 0 where
  pub ids : (i : String) → row_count (λ r. r.id == i) rs ≤ 1
  pub hashes : row_count (λ r. r.request_hash == k) rs ≤ 1
  -- the intent is there and not proposed
  pub locked : 0 < n → IsLocked k rs
  pub there : 0 < n → 0 < row_count (λ r. r.request_hash == k) rs

pub Holds-Evolves :
    (k : String) (n : ℕ) (rs rs' : List Intent) → Evolves rs rs' → Holds k n rs → Holds k n rs'
Holds-Evolves k n rs rs' e o = record {
  ids = λ i. rw (row_count-id i rs rs' e) (o.ids i);
  hashes = rw (row_count-hash k rs rs' e) o.hashes;
  locked = λ h. IsLocked-Evolves k rs rs' e (o.locked h);
  there = λ h. rw (row_count-hash k rs rs' e) (o.there h);
}

IsLocked-append :
    (k : String) (rs : List Intent) (r : Intent)
    → r.request_hash ≢ k
    → IsLocked k rs
    → IsLocked k (rs ++ r ∷ [])
IsLocked-append k [] r other_ l = (λ e. absurd (other_ e), tt)
IsLocked-append k (x ∷ rs) r other_ (l, ls) = (l, IsLocked-append k rs r other_ ls)

-- A new row has another request hash if there is a submission.
pub Holds-added :
    (k : String) (n : ℕ) (r : Intent) (rs : List Intent)
    → any (taken r) rs ≡ false
    → Holds k n rs
    → Holds k n (rs ++ r ∷ [])
Holds-added k n r rs new o =
    let (fresh_id, fresh_hash) = row_fresh r rs new in
    let counted = row_count-append (λ q. q.request_hash == k) r rs in
    record {
      ids = λ i. added_id r i rs fresh_id (o.ids i);
      hashes = added_hash r k rs fresh_hash o.hashes;
      locked = λ h.
          IsLocked-append k rs r
            (λ e. absurd (
              let none_ : row_count (λ q. q.request_hash == k) rs ≡ 0 =
                subst (λ j. row_count (λ q. q.request_hash == j) rs ≡ 0) e fresh_hash in
              omega (arith, o.there h)))
            (o.locked h);
      there = λ h. omega (arith, counted, o.there h);
    }
