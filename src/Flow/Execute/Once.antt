-- ===== src/Flow/Execute/Once.antt =====
-- Calls of the flow in any order, with their errors, fund an invoice at most once.
use lumo.Base.{
  ℕ, ◌≤◌, ◌≡◌, refl, ◌∙◌, sym, false, Option, List, [], ◌∷◌, String, ◌==◌, eq_iff, subst,
  Bool-cases, inl, inr, arith, row_count, ltb,
}
use lumo.Models.{TxArgs}
use lumo.Config.{Config}
use lumo.Injection.{Text}
use lumo.Pipeline.Guards.{ComputeReceipt}
use lumo.Pipeline.Findings.{Services}
use lumo.Pipeline.Run.{run}
use lumo.Pipeline.Keeps.{run-Preserves}
use lumo.Chain.{ChainAdapter, Kind}
use lumo.Oracle.{AttestationSource}
use lumo.Db.Queries.{is_proposed}
use lumo.Db.Evolves.{row_count-hash, unique_found, count_of_found}
use lumo.Flow.Steps.{World, on_repo}
use lumo.Flow.Settle.{attest, release, revert, sync_status}
use lumo.Flow.Trace.{traced, Quiet, attest-Quiet, revert-Quiet, sync_status-Quiet}
use lumo.Flow.Trace.Release.{release-Quiet}
use lumo.Flow.Execute.{execute}
use lumo.Flow.Execute.Claim.{Submitted}
use lumo.Flow.Execute.Outcome.{execute_outcome}
use lumo.Flow.Execute.Holds.{
  found_holds, Names, Names-Evolves, Names-IsLocked, Holds, Holds-Evolves, Holds-added,
}

pub data FlowCall : Type 0 where
  proposed : Text → Config → Option String → Option ComputeReceipt → FlowCall
  executed : String → String → Config → FlowCall
  attested : String → Kind → String → String → Option AttestationSource → FlowCall
  released : String → String → Config → FlowCall
  reverted : String → String → FlowCall
  synced : String → FlowCall

-- how many of the escrows that may exist are for that request hash
abbrev pub submissions : String → List TxArgs → ℕ
submissions k trace = row_count (λ a. a.request_hash == k) trace

module _ {E C D : Type 0} (client : ChainAdapter C) (lower : String → String)
    (sv : Services D) where
  unfoldable pub call : FlowCall → World E (C × List TxArgs) → World E (C × List TxArgs)
  call (proposed text config cosign receipt) w = (on_repo (run sv text config cosign receipt) w).1
  call (executed id source config) w = (execute (traced client) lower id source config w).1
  call (attested id kind address source to) w =
      (attest (traced client) id kind address source to w).1
  call (released id source config) w =
      (release (traced client) sv.decimals sv.patterns sv.sha256_hex id source config w).1
  call (reverted id source) w = (revert (traced client) id source w).1
  call (synced id) w = (sync_status (traced client) id w).1

  unfoldable pub run_calls : List FlowCall → World E (C × List TxArgs) → World E (C × List TxArgs)
  run_calls [] w = w
  run_calls (c ∷ cs) w = run_calls cs (call c w)

pub record IsOnce {E C : Type 0} (k : String) (w : World E (C × List TxArgs)) : Type 0 where
  pub rows : Holds k (submissions k w.chain.1) w.repo.db.intents
  pub at_most : submissions k w.chain.1 ≤ 1

pub IsOnce-start :
    {E C : Type 0} (k : String) (w : World E (C × List TxArgs))
    → ((i : String) → row_count (λ r. r.id == i) w.repo.db.intents ≤ 1)
    → row_count (λ r. r.request_hash == k) w.repo.db.intents ≤ 1
    → w.chain.1 ≡ []
    → IsOnce k w
IsOnce-start k w ids hashes clean =
    let none_ : submissions k w.chain.1 ≡ 0 = rw clean refl in
    record {
      rows = record {
        ids = ids;
        hashes = hashes;
        locked = λ h. absurd (omega arith);
        there = λ h. absurd (omega arith);
      };
      at_most = omega arith;
    }

module _ {E C : Type 0} (k : String) (w v : World E (C × List TxArgs)) where
  Quiet-IsOnce : Quiet w v → IsOnce k w → IsOnce k v
  Quiet-IsOnce q o = record {
    rows = rw q.trace (
        Holds-Evolves k (submissions k w.chain.1) w.repo.db.intents v.repo.db.intents q.rows
          o.rows);
    at_most = rw q.trace o.at_most;
  }

  Submitted-IsOnce : (id : String) → Submitted id w v → IsOnce k w → IsOnce k v
  Submitted-IsOnce id s o = elim (Bool-cases (s.args.request_hash == k)) [
    | inl hit ↦
        (let same : s.row.request_hash ≡ k =
            sym s.same_hash ∙ (eq_iff s.args.request_hash k).0 hit in
          let fresh : submissions k w.chain.1 ≡ 0 =
            elim (Bool-cases (ltb 0 (submissions k w.chain.1))) [
              | inl some_ ↦
                  (let unproposed =
                      found_holds (λ r. r.request_hash ≡ k → is_proposed r ≡ false)
                        (λ r. r.id == id) w.repo.db.intents s.found (o.rows.locked (ground arith))
                        same in
                    let was = s.was_proposed in cc)
              | inr none_ ↦ ground arith
            ] in
          let names : Names k id w.repo.db.intents =
            unique_found (λ r. r.id == id) (λ r. r.request_hash == k) w.repo.db.intents s.found
              ((eq_iff s.row.request_hash k).1 same) o.rows.hashes in
          let after : Holds k 0 v.repo.db.intents =
            Holds-Evolves k 0 w.repo.db.intents v.repo.db.intents s.rows
              (subst (λ n. Holds k n w.repo.db.intents) fresh o.rows) in
          record {
            rows = record {
              ids = after.ids;
              hashes = after.hashes;
              locked = λ h.
                  Names-IsLocked k id v.repo.db.intents
                    (Names-Evolves k id w.repo.db.intents v.repo.db.intents s.rows names) s.claimed;
              there = λ h. rw (row_count-hash k w.repo.db.intents v.repo.db.intents s.rows) (
                  count_of_found (λ r. r.id == id) (λ r. r.request_hash == k) w.repo.db.intents
                    s.found ((eq_iff s.row.request_hash k).1 same));
            };
            at_most = rw (s.entry, hit, fresh) (omega arith);
          })
    | inr miss ↦ record {
      rows =
          rw (s.entry, miss)
            (Holds-Evolves k (submissions k w.chain.1) w.repo.db.intents v.repo.db.intents s.rows
              o.rows);
      at_most = rw (s.entry, miss) o.at_most;
    }
  ]

module _ {E C D : Type 0} (client : ChainAdapter C) (lower : String → String)
    (sv : Services D) where
  pub call-IsOnce :
      (k : String) (c : FlowCall) (w : World E (C × List TxArgs))
      → IsOnce k w
      → IsOnce k (call client lower sv c w)
  unfolding call
  call-IsOnce k (proposed text config cosign receipt) w o = record {
    rows =
        (run-Preserves (Holds k (submissions k w.chain.1)) (Holds-added k (submissions k w.chain.1))
            (Holds-Evolves k (submissions k w.chain.1)) sv text config cosign receipt).at_state
          w.repo o.rows;
    at_most = o.at_most;
  }
  call-IsOnce k (executed id source config) w o =
      elim (execute_outcome client lower id source config w (o.rows.ids id)) [
        | inl q ↦ Quiet-IsOnce k w (call client lower sv (executed id source config) w) q o
        | inr s ↦ Submitted-IsOnce k w (call client lower sv (executed id source config) w) id s o
      ]
  call-IsOnce k (attested id kind address source to) w o =
      Quiet-IsOnce k w (call client lower sv (attested id kind address source to) w)
        ((attest-Quiet client id kind address source to).at_state w) o
  call-IsOnce k (released id source config) w o =
      Quiet-IsOnce k w (call client lower sv (released id source config) w)
        ((release-Quiet client sv.decimals sv.patterns sv.sha256_hex id source config).at_state w) o
  call-IsOnce k (reverted id source) w o =
      Quiet-IsOnce k w (call client lower sv (reverted id source) w)
        ((revert-Quiet client id source).at_state w) o
  call-IsOnce k (synced id) w o =
      Quiet-IsOnce k w (call client lower sv (synced id) w)
        ((sync_status-Quiet client id).at_state w) o

  run_calls-IsOnce :
      (k : String) (cs : List FlowCall) (w : World E (C × List TxArgs))
      → IsOnce k w
      → IsOnce k (run_calls client lower sv cs w)
  unfolding run_calls
  run_calls-IsOnce k [] w o = o
  run_calls-IsOnce k (c ∷ cs) w o =
      run_calls-IsOnce k cs (call client lower sv c w) (call-IsOnce k c w o)

  -- Start with intents whose ids differ pairwise and of which at most one has the request hash
  -- `k`, and with no recorded submission. After any list of runs of the pipeline and calls of
  -- `execute`, `attest`, `release`, `revert` and `sync_status`, each with any arguments and each
  -- followed by the next whether or not it raised, at most one call of `create_intent` with the
  -- request hash `k` has succeeded or been left unconfirmed. The chain adapter is any at all.
  pub submits_once :
      (k : String) (cs : List FlowCall) (w : World E (C × List TxArgs))
      → ((i : String) → row_count (λ r. r.id == i) w.repo.db.intents ≤ 1)
      → row_count (λ r. r.request_hash == k) w.repo.db.intents ≤ 1
      → w.chain.1 ≡ []
      → submissions k (run_calls client lower sv cs w).chain.1 ≤ 1
  submits_once k cs w ids hashes clean =
      (run_calls-IsOnce k cs w (IsOnce-start k w ids hashes clean)).at_most
