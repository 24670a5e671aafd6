-- ===== src/Flow/Execute/Claim.antt =====
-- What a call of `execute` leaves behind: it did not touch the chain's escrows, or it submitted
-- one escrow for an intent that was proposed and is not any more.
use lumo.Base.{
  ◌≡◌, ◌⊎◌, refl, true, false, ◌&&◌, Option, none, some, List, [], ◌∷◌, String, ◌==◌, Result, ok,
  err, Error, submitted_unconfirmed, pure, or_raise, raise_if, value_error, chain_error, not,
  Bool-cases, inl, inr, arith, update, All, other, Result-cases,
}
use lumo.Base.Stays.{Stays, Stays-result, Stays-or_raise, Stays-if, Stays-bind, Stays-raise_if}
use lumo.Models.{TxArgs, Status}
use lumo.Config.{Config}
use lumo.Chain.{ChainAdapter, InvokeResult, variant_of}
use lumo.Db.Rows.{Intent, Tables}
use lumo.Db.Queries.{intent, is_proposed, is_unfunded, set_status}
use lumo.Db.Evolves.{Evolves}
use lumo.Db.Repo.{add_chain_tx, release_escrow_claim, set_chain_intent, update_intent}
use lumo.Db.Decide.{record_decision}
use lumo.Db.Frame.{add_chain_tx-Stays, set_chain_intent-Stays, follow_up-Stays}
use lumo.Flow.Steps.{World, on_repo, on_chain, lift}
use lumo.Flow.Trace.{traced, may_be_funded, Quiet, Quiet-preorder, on_repo-Quiet, on_chain-Quiet}
use lumo.Flow.Execute.{create, recover, confirm, funding, note_tx, call_args}

call_args-hash :
    (row : Intent) (config : Config) (db : Tables) (args : TxArgs)
    → call_args row config db ≡ ok args
    → args.request_hash ≡ row.request_hash
unfolding call_args
call_args-hash row config db args h = ground arith

call_args-err :
    (row : Intent) (config : Config) (db : Tables) (x : Error)
    → call_args row config db ≡ err x
    → may_be_funded (err x) ≡ false
unfolding call_args
call_args-err row config db x h = ground arith

module _ {E C : Type 0} (client : ChainAdapter C) (lower : String → String) where
  note_tx-Quiet :
      (id : String) (h : Option String) → Stays Quiet (note_tx {E = E} (traced client) lower id h)
  note_tx-Quiet id none = Stays-result Quiet-preorder (λ w. ok tt)
  note_tx-Quiet id (some h) =
      Stays-if Quiet-preorder (h == "") (pure tt)
        (on_repo (add_chain_tx id "create_intent" (some h)))
        (Stays-result Quiet-preorder (λ w. ok tt))
        (on_repo-Quiet (add_chain_tx id "create_intent" (some h))
          (add_chain_tx-Stays id "create_intent" (some h)))

  pub confirm-Quiet :
      (id : String) (row : Intent) (r : InvokeResult)
      → Stays Quiet (confirm {E = E} (traced client) lower id row r)
  unfolding confirm traced
  confirm-Quiet id row r =
      let pre = Quiet-preorder {E = E} {C = C} in
      Stays-bind pre (or_raise r.value other) _ (Stays-or_raise pre r.value other) λ n.
        Stays-bind pre (on_repo (add_chain_tx id "create_intent" r.tx_hash)) _
          (on_repo-Quiet (add_chain_tx id "create_intent" r.tx_hash)
            (add_chain_tx-Stays id "create_intent" r.tx_hash))
          λ _.
            Stays-bind pre (on_repo (set_chain_intent id n)) _
              (on_repo-Quiet (set_chain_intent id n) (set_chain_intent-Stays id n))
              λ _.
                Stays-bind pre (on_chain ((traced client).get_status n)) _
                  (on_chain-Quiet (client.get_status n))
                  λ status.
                    Stays-bind pre (or_raise status chain_error) _
                      (Stays-or_raise pre status chain_error)
                      λ chain.
                        Stays-bind pre
                          (raise_if (not (lower chain.request_hash == lower row.request_hash))
                            chain_error)
                          _ (Stays-raise_if pre _ chain_error)
                          λ _.
                            Stays-bind pre (lift (variant_of chain.status)) _
                              (Stays-result pre (λ w. variant_of chain.status))
                              λ variant.
                                Stays-bind pre (raise_if (not (variant == "Funded")) chain_error) _
                                  (Stays-raise_if pre _ chain_error)
                                  λ _.
                                    Stays-bind pre (on_repo (record_decision (funding id row r))) _
                                      (on_repo-Quiet (record_decision (funding id row r))
                                        (follow_up-Stays (funding id row r) refl))
                                      λ _. Stays-result pre (λ w. ok (some n))

  -- The call of `create_intent`, with the rows as they were and at most one new entry.
  pub record Created (row : Intent) (w : World E (C × List TxArgs)) (r : Result InvokeResult)
      (v : World E (C × List TxArgs)) : Type 0 where
    pub same_rows : v.repo ≡ w.repo
    pub entry :
        (v.chain.1 ≡ w.chain.1) × (may_be_funded r ≡ false)
        ⊎ (args : TxArgs) × (args.request_hash ≡ row.request_hash)
          × (v.chain.1 ≡ args ∷ w.chain.1)
          × (may_be_funded r ≡ true)

  pub create-Created :
      (row : Intent) (source : String) (config : Config) (w : World E (C × List TxArgs))
      → let (r, v) = create (traced client) lower row source config w in Created row w r v
  unfolding create traced
  create-Created row source config w = elim (Result-cases (call_args row config w.repo.db)) [
    | inl (args, e) ↦
        elim (Bool-cases (may_be_funded (client.create_intent args source w.chain.0).0)) [
          | inl yes_ ↦ record {
            same_rows = rw e;
            entry =
                inr (args, call_args-hash row config w.repo.db args e, rw (e, yes_), rw (e, yes_));
          }
          | inr no_ ↦ record { same_rows = rw e; entry = inl (rw (e, no_), rw (e, no_)) }
        ]
    | inr (x, e) ↦ record {
      same_rows = rw e;
      entry = inl (rw e, rw e (call_args-err row config w.repo.db x e));
    }
  ]

  pub recover-Quiet :
      (id : String) (x : Error) (w : World E (C × List TxArgs))
      → may_be_funded (err x) ≡ true
      → Quiet w (recover {E = E} (traced client) lower id x w).1
  unfolding recover
  recover-Quiet id (submitted_unconfirmed h) w k =
      (Stays-bind Quiet-preorder (note_tx (traced client) lower id h) _ (note_tx-Quiet id h) λ _.
          Stays-result Quiet-preorder {A = InvokeResult}
            (λ v. err (submitted_unconfirmed h))).at_state
        w
  recover-Quiet id value_error w k = cc
  recover-Quiet id _ w k = cc

  pub recover_clean :
      (id : String) (x : Error) (w : World E (C × List TxArgs))
      → may_be_funded (err x) ≡ false
      → (recover {E = E} (traced client) lower id x w).1
        ≡ record w { repo = update_intent id is_unfunded (set_status Status.proposed) w.repo }
  unfolding recover release_escrow_claim
  recover_clean id (submitted_unconfirmed h) w k = cc
  recover_clean id value_error w k = refl
  recover_clean id _ w k = refl

-- No row with that id is proposed.
abbrev pub IsClaimed : String → List Intent → Type 0
IsClaimed id rs = All (λ r. r.id == id ≡ true → is_proposed r ≡ false) rs

abbrev pub claimed_rows : String → List Intent → List Intent
claimed_rows id rs = update (λ r. r.id == id && is_proposed r) (set_status Status.escrowed) rs

pub claimed_rows-IsClaimed : (id : String) (rs : List Intent) → IsClaimed id (claimed_rows id rs)
claimed_rows-IsClaimed id [] = tt
claimed_rows-IsClaimed id (r ∷ rs) = (λ h. ground arith, claimed_rows-IsClaimed id rs)

pub IsClaimed-Evolves :
    (id : String) (rs rs' : List Intent) → Evolves rs rs' → IsClaimed id rs → IsClaimed id rs'
IsClaimed-Evolves id [] [] h l = tt
IsClaimed-Evolves id [] (r ∷ rs) h l = absurd h
IsClaimed-Evolves id (r ∷ rs) [] h l = absurd h
IsClaimed-Evolves id (r ∷ rs) (r' ∷ rs') (h, hs) (l, ls) =
    (locked, IsClaimed-Evolves id rs rs' hs ls)
  where
    locked : r'.id == id ≡ true → is_proposed r' ≡ false
    locked e = elim (Bool-cases (is_proposed r')) [
      | inl p ↦ (let a = h.2 p in let b = l (rw (← h.0) e) in cc)
      | inr n ↦ n
    ]

-- A claim of an intent that was proposed, undone: the rows are as good as before.
pub reset-Evolves :
    (id : String) (rs : List Intent)
    → All (λ r. r.id == id ≡ true → is_proposed r ≡ true) rs
    → Evolves rs (
        update (λ r. r.id == id && is_unfunded r) (set_status Status.proposed) (claimed_rows id rs))
reset-Evolves id [] l = tt
reset-Evolves id (r ∷ rs) (l, ls) =
    ((ground arith, ground arith, λ p. ground arith), reset-Evolves id rs ls)

module _ {E C : Type 0} where
  -- One escrow was submitted, for the intent `id`, which was proposed and is not any more.
  pub record Submitted (id : String) (w v : World E (C × List TxArgs)) : Type 0 where
    pub row : Intent
    pub args : TxArgs
    pub found : intent id w.repo.db ≡ some row
    pub was_proposed : is_proposed row ≡ true
    pub same_hash : args.request_hash ≡ row.request_hash
    pub entry : v.chain.1 ≡ args ∷ w.chain.1
    pub rows : Evolves w.repo.db.intents v.repo.db.intents
    pub claimed : IsClaimed id v.repo.db.intents
