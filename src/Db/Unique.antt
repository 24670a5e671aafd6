-- ===== src/Db/Unique.antt =====
-- The keys of `intents`: every way to write the table keeps ids and request hashes apart.
use lumo.Base.{
  ◌+◌, ◌≤◌, ◌≡◌, refl, subst, Bool, false, List, [], ◌∷◌, ◌++◌, String, ◌==◌, eq_iff, any,
  row_count, Bool-cases, inl, inr, arith,
}
use lumo.Db.Rows.{Intent}
use lumo.Db.Repo.{Repo}
use lumo.Db.Decide.{Decision, record_decision}
use lumo.Db.Preserved.{taken, record_decision-Preserves}
use lumo.Db.Evolves.{Evolves, row_count-id, row_count-hash}

abbrev pub IsUnique : List Intent → Type 0
IsUnique rs =
    ((i : String) → row_count (λ r. r.id == i) rs ≤ 1)
    × ((k : String) → row_count (λ r. r.request_hash == k) rs ≤ 1)

pub row_fresh :
    (r : Intent) (rs : List Intent)
    → any (taken r) rs ≡ false
    → (row_count (λ q. q.id == r.id) rs ≡ 0)
      × (row_count (λ q. q.request_hash == r.request_hash) rs ≡ 0)
row_fresh r [] h = (refl, refl)
row_fresh r (x ∷ rs) h = ground (arith, row_fresh r rs)

pub row_count-append :
    (p : Intent → Bool) (r : Intent) (rs : List Intent)
    → row_count p (rs ++ r ∷ []) ≡ row_count p rs + row_count p (r ∷ [])
row_count-append p r [] = omega arith
row_count-append p r (x ∷ rs) = ground (arith, row_count-append p r rs)

pub added_id :
    (r : Intent) (i : String) (rs : List Intent)
    → row_count (λ q. q.id == r.id) rs ≡ 0
    → row_count (λ q. q.id == i) rs ≤ 1
    → row_count (λ q. q.id == i) (rs ++ r ∷ []) ≤ 1
added_id r i rs fresh u = elim (Bool-cases (r.id == i)) [
  | inl hit ↦
      (let none_ : row_count (λ q. q.id == i) rs ≡ 0 =
          subst (λ j. row_count (λ q. q.id == j) rs ≡ 0) ((eq_iff r.id i).0 hit) fresh in
        rw (row_count-append (λ q. q.id == i) r rs, hit, none_) (omega arith))
  | inr miss ↦ rw (row_count-append (λ q. q.id == i) r rs, miss) (omega arith)
]

pub added_hash :
    (r : Intent) (k : String) (rs : List Intent)
    → row_count (λ q. q.request_hash == r.request_hash) rs ≡ 0
    → row_count (λ q. q.request_hash == k) rs ≤ 1
    → row_count (λ q. q.request_hash == k) (rs ++ r ∷ []) ≤ 1
added_hash r k rs fresh u = elim (Bool-cases (r.request_hash == k)) [
  | inl hit ↦
      (let none_ : row_count (λ q. q.request_hash == k) rs ≡ 0 =
          subst (λ j. row_count (λ q. q.request_hash == j) rs ≡ 0) ((eq_iff r.request_hash k).0 hit)
            fresh in
        rw (row_count-append (λ q. q.request_hash == k) r rs, hit, none_) (omega arith))
  | inr miss ↦ rw (row_count-append (λ q. q.request_hash == k) r rs, miss) (omega arith)
]

pub IsUnique-added :
    (r : Intent) (rs : List Intent)
    → any (taken r) rs ≡ false
    → IsUnique rs
    → IsUnique (rs ++ r ∷ [])
IsUnique-added r rs new u =
    let (i, h) = row_fresh r rs new in
    (λ x. added_id r x rs i (u.0 x), λ x. added_hash r x rs h (u.1 x))

pub IsUnique-Evolves : (rs rs' : List Intent) → Evolves rs rs' → IsUnique rs → IsUnique rs'
IsUnique-Evolves rs rs' e u =
    (λ i. rw (row_count-id i rs rs' e) (u.0 i), λ k. rw (row_count-hash k rs rs' e) (u.1 k))

-- Recording a decision, whether or not it succeeds, keeps both the ids and the request hashes
-- of the intents pairwise different, if they were before.
pub record_decision-IsUnique :
    {E : Type 0} (d : Decision) (s : Repo E)
    → IsUnique s.db.intents
    → IsUnique (record_decision d s).1.db.intents
record_decision-IsUnique d s u =
    (record_decision-Preserves IsUnique IsUnique-added IsUnique-Evolves d).at_state s u
