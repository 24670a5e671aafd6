-- ===== src/Flow/Execute/Outcome.antt =====
-- The two ways in which a call of `execute` can end, on a chain whose escrows are recorded.
use lumo.Base.{
  ◌≤◌, ◌≡◌, ◌⊎◌, refl, ap, ◌∙◌, Bool, true, false, ◌&&◌, some, List, [], ◌∷◌, String, ◌==◌, Action,
  Result, ok, err, Error, submitted_unconfirmed, bind_result, value_error, Bool-cases, inl, inr,
  arith, find, row_count, All, nat_eq, Option-cases, Result-cases,
}
use lumo.Models.{TxArgs, Status}
use lumo.Config.{Config}
use lumo.Chain.{ChainAdapter, InvokeResult}
use lumo.Db.Rows.{Intent}
use lumo.Db.Queries.{intent, is_proposed, set_status}
use lumo.Db.Evolves.{Evolves, Evolves-trans, Evolves-update, unique_both}
use lumo.Db.Repo.{Repo, claim_escrow, release_escrow_claim}
use lumo.Db.Frame.{claim_escrow-Stays}
use lumo.Flow.Steps.{World, on_repo}
use lumo.Flow.Trace.{traced, Quiet, Quiet-preorder, on_repo-Quiet}
use lumo.Flow.Execute.{
  create, recover, catch, confirm, submit, execute, execute_as, is_proposed_status, note_tx,
}
use lumo.Flow.Execute.Claim.{
  Created, create-Created, confirm-Quiet, recover-Quiet, recover_clean, IsClaimed,
  IsClaimed-Evolves, claimed_rows, claimed_rows-IsClaimed, reset-Evolves, Submitted,
}

first_proposed :
    (id : String) (rs : List Intent) {row : Intent}
    → find (λ r. r.id == id) rs ≡ some row
    → All (λ r. r.id == id ≡ true → is_proposed r ≡ true) rs
    → is_proposed row ≡ true
first_proposed id [] h l = ground arith
first_proposed id (r ∷ rs) {row} h (l, ls) = elim (Bool-cases (r.id == id)) [
  | inl hit ↦ (let e : r ≡ row = ground arith in rw (← e) (l hit))
  | inr miss ↦ first_proposed id rs {row = row} (ground arith) ls
]

claim-Evolves : (id : String) (rs : List Intent) → Evolves rs (claimed_rows id rs)
claim-Evolves id rs =
    Evolves-update (λ r. r.id == id && is_proposed r) (set_status Status.escrowed)
      (λ r h. (refl, refl, λ p. cc)) rs

bind_raises :
    {S A B : Type 0} (c : Result A × S) (f : A → Action S B) (e : Error)
    → c.0 ≡ err e
    → (bind_result c.0 c.1 f).1 ≡ c.1
bind_raises (ok a, s) f e h = cc
bind_raises (err x, s) f e h = refl

module _ {E C : Type 0} (client : ChainAdapter C) (lower : String → String) where
  recover_raises :
      (id : String) (x : Error) (w : World E (C × List TxArgs))
      → (e : Error) × ((recover {E = E} (traced client) lower id x w).0 ≡ err e)
  unfolding recover release_escrow_claim
  recover_raises id (submitted_unconfirmed h) w =
      elim (Result-cases (note_tx (traced client) lower id h w).0) [
        | inl (a, e) ↦ (submitted_unconfirmed h, rw e)
        | inr (x, e) ↦ (x, rw e)
      ]
  recover_raises id value_error w = (value_error, refl)
  recover_raises id x w = (x, refl)

  abbrev rest :
      String → Intent → Result InvokeResult × World E (C × List TxArgs) → World E (C × List TxArgs)
  rest id row c =
      let (r, v) = catch (traced client) lower c id in
      (bind_result r v (confirm (traced client) lower id row)).1

  after_create :
      (id : String) (row : Intent) (w w₁ : World E (C × List TxArgs))
      (c : Result InvokeResult × World E (C × List TxArgs))
      → intent id w.repo.db ≡ some row
      → All (λ r. r.id == id ≡ true → is_proposed r ≡ true) w.repo.db.intents
      → w₁.repo.db.intents ≡ claimed_rows id w.repo.db.intents
      → w₁.chain ≡ w.chain
      → Created client lower row w₁ c.0 c.1
      → Quiet w (rest id row c) ⊎ Submitted id w (rest id row c)
  after_create id row w w₁ (ok r, v) found all rows chain made = elim made.entry [
    | inl (same, no_escrow) ↦ cc
    | inr (args, h, t, y) ↦
        (let q = (confirm-Quiet client lower id row r).at_state v in
          let vrows : v.repo.db.intents ≡ claimed_rows id w.repo.db.intents =
            ap (λ (s : Repo E). s.db.intents) made.same_rows ∙ rows in
          let start : Evolves w.repo.db.intents v.repo.db.intents =
            rw vrows (claim-Evolves id w.repo.db.intents) in
          let locked : IsClaimed id v.repo.db.intents =
            rw vrows (claimed_rows-IsClaimed id w.repo.db.intents) in
          inr (record {
            row = row;
            args = args;
            found = found;
            was_proposed = first_proposed id w.repo.db.intents found all;
            same_hash = h;
            entry = q.trace ∙ (t ∙ ap (λ (c : C × List TxArgs). args ∷ c.1) chain);
            rows =
                Evolves-trans w.repo.db.intents v.repo.db.intents
                  (rest id row (ok r, v)).repo.db.intents start q.rows;
            claimed =
                IsClaimed-Evolves id v.repo.db.intents (rest id row (ok r, v)).repo.db.intents
                  q.rows locked;
          }))
  ]
  after_create id row w w₁ (err x, v) found all rows chain made =
      let (e, raised) = recover_raises id x v in
      let after : rest id row (err x, v) ≡ (recover (traced client) lower id x v).1 =
        bind_raises (recover (traced client) lower id x v) (confirm (traced client) lower id row) e
          raised in
      let vrows : v.repo.db.intents ≡ claimed_rows id w.repo.db.intents =
        ap (λ (s : Repo E). s.db.intents) made.same_rows ∙ rows in
      elim made.entry [
        | inl (same, no_escrow) ↦ inl (
            rw (after, recover_clean client lower id x v no_escrow)
              (record {
                rows = rw vrows (reset-Evolves id w.repo.db.intents all);
                trace = same ∙ ap (λ (c : C × List TxArgs). c.1) chain;
              }))
        | inr (args, h, t, y) ↦
            (let q = recover-Quiet client lower id x v y in
              let start : Evolves w.repo.db.intents v.repo.db.intents =
                rw vrows (claim-Evolves id w.repo.db.intents) in
              let locked : IsClaimed id v.repo.db.intents =
                rw vrows (claimed_rows-IsClaimed id w.repo.db.intents) in
              inr (
                rw after (record {
                  row = row;
                  args = args;
                  found = found;
                  was_proposed = first_proposed id w.repo.db.intents found all;
                  same_hash = h;
                  entry = q.trace ∙ (t ∙ ap (λ (c : C × List TxArgs). args ∷ c.1) chain);
                  rows =
                      Evolves-trans w.repo.db.intents v.repo.db.intents
                        (recover (traced client) lower id x v).1.repo.db.intents start q.rows;
                  claimed =
                      IsClaimed-Evolves id v.repo.db.intents
                        (recover (traced client) lower id x v).1.repo.db.intents q.rows locked;
                })))
      ]

  execute_as_outcome :
      (dry : Bool) (id : String) (row : Intent) (source : String) (config : Config)
      (w : World E (C × List TxArgs))
      → intent id w.repo.db ≡ some row
      → row_count (λ r. r.id == id) w.repo.db.intents ≤ 1
      → let v = (execute_as (traced client) lower dry id row source config w).1 in
        Quiet w v ⊎ Submitted id w v
  unfolding submit claim_escrow
  execute_as_outcome true id row source config w e unique =
      elim (Bool-cases (is_proposed_status row.status)) [
        | inl fresh ↦ inl (rw fresh (Quiet-preorder.start w))
        | inr stale ↦ inl (rw stale (Quiet-preorder.start w))
      ]
  execute_as_outcome false id row source config w e unique =
      elim (Bool-cases
        (nat_eq (row_count (λ r. r.id == id && is_proposed r) w.repo.db.intents) 1)) [
          | inl one ↦
              (let w₁ : World E (C × List TxArgs) = (on_repo (claim_escrow id) w).1 in
                rw one (
                  after_create id row w w₁ (create (traced client) lower row source config w₁) e
                    (unique_both (λ r. r.id == id) is_proposed w.repo.db.intents unique
                      (ground arith))
                    refl refl (create-Created client lower row source config w₁)))
          | inr none_ ↦
              inl (rw none_ ((on_repo-Quiet (claim_escrow id) (claim_escrow-Stays id)).at_state w))
        ]

  -- Where at most one intent has the id, a call of `execute`, whether it returns or raises, is
  -- quiet: it records no submission, and no row of `intents` appears, disappears, changes its keys
  -- or becomes proposed. Or it records one submission, with the request hash of the intent of that
  -- id, which was proposed before the call and is not after it, with the rows otherwise as before
  -- in the same sense.
  pub execute_outcome :
      (id source : String) (config : Config) (w : World E (C × List TxArgs))
      → row_count (λ r. r.id == id) w.repo.db.intents ≤ 1
      → let v = (execute (traced client) lower id source config w).1 in Quiet w v ⊎ Submitted id w v
  unfolding execute
  execute_outcome id source config w unique = elim (Option-cases (intent id w.repo.db)) [
    | inl unknown ↦ inl (rw unknown (Quiet-preorder.start w))
    | inr (row, e) ↦ rw e (execute_as_outcome config.dry_run id row source config w e unique)
  ]
