-- ===== src/Flow/Paid/Book.antt =====
-- An intent in the repository on its way through the escrow: what the writes of lumo/db/repo.py
-- leave of it.
use Prim.Native.String.{◌++◌ as str_append}
use lumo.Base.{
  ℕ, ◌+◌, ◌≤◌, ◌≡◌, refl, ap, ◌∙◌, Bool, true, false, ◌&&◌, Option, some, List, [], ◌∷◌, ◌++◌,
  String, ◌==◌, any, find, update, find-update, find-holds, row_count, ok, arith,
}
use lumo.Base.Ends.{Ends, Ends-same}
use lumo.Models.{Status}
use lumo.Monitor.{Value, text}
use lumo.Db.Rows.{Intent, Supplier, insert_chain_tx}
use lumo.Db.Queries.{intent, supplier_by_id, is_proposed, set_status, always}
use lumo.Db.Repo.{
  Repo, emit, update_intent, add_chain_tx, claim_escrow, set_chain_intent, mark_released,
}
use lumo.Db.Fresh.{Fresh, Frame, emit-Lives, any-append, next_differs}

-- The row of an intent and its supplier, and ids to come that are in no row.
pub record IsBooked {E : Type 0} (id : String) (row : Intent) (payee : Supplier) (s : Repo E)
    : Type 0 where
  pub row_is : intent id s.db ≡ some row
  pub payee_is : supplier_by_id row.supplier_id s.db ≡ some payee
  pub fresh : Fresh s
  pub txs : (k : ℕ) → s.minted ≤ k → any (λ q. q.id == s.ids k) s.db.chain_txs ≡ false
  pub payouts : (k : ℕ) → s.minted ≤ k → any (λ q. q.id == s.ids k) s.db.anchor_payouts ≡ false
  pub refs :
      (k : ℕ)
      → s.minted ≤ k
      → any (λ q. q.ref == str_append "MOCK-" (s.ids k)) s.db.anchor_payouts ≡ false

pub any-update :
    (k : String) (p : Intent → Bool) (f : Intent → Intent)
    → ((r : Intent) → (f r).id ≡ r.id)
    → (rs : List Intent) → any (λ r. r.id == k) (update p f rs) ≡ any (λ r. r.id == k) rs
any-update k p f keep [] = refl
any-update k p f keep (r ∷ rs) = ground (arith, keep r, any-update k p f keep rs)

pub any-find :
    {A : Type 0} (p : A → Bool) (rs : List A) (r : A) → find p rs ≡ some r → any p rs ≡ true
any-find p [] r h = ground arith
any-find p (x ∷ rs) r h = ground (arith, any-find p rs r)

abbrev pub with_chain_id : ℕ → Intent → Intent
with_chain_id n r = record r { chain_intent_id = some n }

module _ {E : Type 0} (id : String) (payee : Supplier) where
  pub updated-IsBooked :
      (row : Intent) (p : Intent → Bool) (f : Intent → Intent) (s : Repo E)
      → ((r : Intent) → (f r).id ≡ r.id)
      → (f row).supplier_id ≡ row.supplier_id
      → p row ≡ true
      → IsBooked id row payee s
      → IsBooked id
          (f row)
          payee
          (record s { db = record s.db { intents = update p f s.db.intents } })
  updated-IsBooked row p f s keep same hit b = record {
    row_is =
        find-update (λ r. r.id == id) p f (λ r. ap (λ i. i == id) (keep r)) s.db.intents
        ∙ rw (b.row_is, hit) refl;
    payee_is = ap (λ i. supplier_by_id i s.db) same ∙ b.payee_is;
    fresh = record {
      distinct = b.fresh.distinct;
      decisions = b.fresh.decisions;
      intents = λ k h. any-update (s.ids k) p f keep s.db.intents ∙ b.fresh.intents k h;
      events = b.fresh.events;
      quiet = b.fresh.quiet;
    };
    txs = b.txs;
    payouts = b.payouts;
    refs = b.refs;
  }

  -- the row at the id
  pub at_id : (row : Intent) (s : Repo E) → IsBooked id row payee s → (row.id == id) ≡ true
  at_id row s b = find-holds (λ r. r.id == id) s.db.intents b.row_is

  pub framed-IsBooked :
      (row : Intent) (s t : Repo E) → Frame s t → IsBooked id row payee s → IsBooked id row payee t
  framed-IsBooked row s t f b = record {
    row_is = rw f.intents b.row_is;
    payee_is = rw f.suppliers b.payee_is;
    fresh = f.fresh;
    txs = λ k h. rw (f.txs, f.ids) (b.txs k (omega (arith, f.minted)));
    payouts = λ k h. rw (f.payouts, f.ids) (b.payouts k (omega (arith, f.minted)));
    refs = λ k h. rw (f.payouts, f.ids) (b.refs k (omega (arith, f.minted)));
  }

  emit-IsBooked :
      (row : Intent) (name : String) (p : List (String × Value)) (s : Repo E)
      → IsBooked id row payee s
      → Ends (IsBooked id row payee) (emit name p) s tt
  emit-IsBooked row name p s b =
      let l = emit-Lives name p s b.fresh in
      record { returns = l.returns; after = framed-IsBooked row s (emit name p s).1 l.frame b }

  -- the repository with one more transaction
  abbrev noted : String → Option String → Repo E → Repo E
  noted action hash s = record s {
    minted = s.minted + 1;
    db = record s.db {
      chain_txs =
          s.db.chain_txs
          ++ record { id = s.ids s.minted; intent_id = id; action = action; tx_hash = hash } ∷ [];
    };
  }

  noted-IsBooked :
      (row : Intent) (action : String) (hash : Option String) (s : Repo E)
      → IsBooked id row payee s
      → IsBooked id row payee (noted action hash s)
  noted-IsBooked row action hash s b = record {
    row_is = b.row_is;
    payee_is = b.payee_is;
    fresh = record {
      distinct = b.fresh.distinct;
      decisions = λ k h. b.fresh.decisions k (omega arith);
      intents = λ k h. b.fresh.intents k (omega arith);
      events = λ k h. b.fresh.events k (omega arith);
      quiet = b.fresh.quiet;
    };
    txs = λ k h.
        any-append (λ q. q.id == s.ids k) s.db.chain_txs
          (record { id = s.ids s.minted; intent_id = id; action = action; tx_hash = hash })
          (b.txs k (omega arith)) (next_differs s k b.fresh h);
    payouts = λ k h. b.payouts k (omega arith);
    refs = λ k h. b.refs k (omega arith);
  }

  pub add_chain_tx-IsBooked :
      (row : Intent) (action : String) (hash : Option String) (s : Repo E)
      → IsBooked id row payee s
      → Ends (IsBooked id row payee) (add_chain_tx id action hash) s tt
  unfolding add_chain_tx insert_chain_tx
  add_chain_tx-IsBooked row action hash s b =
      Ends-same (add_chain_tx id action hash) (λ _. (ok tt, noted action hash s)) s tt
        (rw (b.txs s.minted (omega arith), any-find (λ r. r.id == id) s.db.intents row b.row_is)
          refl)
        (record { returns = refl; after = noted-IsBooked row action hash s b })

  pub claim_escrow-IsBooked :
      (row : Intent) (s : Repo E)
      → row_count (λ r. r.id == id && is_proposed r) s.db.intents ≡ 1
      → is_proposed row ≡ true
      → IsBooked id row payee s
      → Ends (IsBooked id (set_status Status.escrowed row) payee) (claim_escrow id) s true
  unfolding claim_escrow
  claim_escrow-IsBooked row s one open_ b = record {
    returns = rw one refl;
    after =
        updated-IsBooked row (λ r. r.id == id && is_proposed r) (set_status Status.escrowed) s
          (λ r. refl) refl (rw (at_id row s b, open_) refl) b;
  }

  pub set_chain_intent-IsBooked :
      (row : Intent) (n : ℕ) (s : Repo E)
      → IsBooked id row payee s
      → Ends (IsBooked id (with_chain_id n row) payee) (set_chain_intent id n) s tt
  unfolding set_chain_intent
  set_chain_intent-IsBooked row n s b = record {
    returns = refl;
    after =
        updated-IsBooked row (λ r. r.id == id && always r) (with_chain_id n) s (λ r. refl) refl
          (rw (at_id row s b) refl) b;
  }

  pub mark_released-IsBooked :
      (row : Intent) (s : Repo E)
      → IsBooked id row payee s
      → Ends (IsBooked id (set_status Status.released row) payee) (mark_released id) s tt
  unfolding mark_released
  mark_released-IsBooked row s b =
      let told =
        emit-IsBooked (set_status Status.released row) "intent.released"
          (("intent_id", text (some id)) ∷ [])
          (update_intent id always (set_status Status.released) s)
          (updated-IsBooked row (λ r. r.id == id && always r) (set_status Status.released) s
            (λ r. refl) refl (rw (at_id row s b) refl) b) in
      record { returns = told.returns; after = told.after }
