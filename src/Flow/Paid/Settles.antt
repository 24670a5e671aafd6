-- ===== src/Flow/Paid/Settles.antt =====
-- `attest` and `release` of lumo/flow.py for a funded escrow of the in-process chain.
use lumo.Base.{
  ℕ, pos, ltb_ℤ, ◌≡◌, refl, ap, ◌∙◌, Bool, true, false, ◌&&◌, Option, none, some, List, [], ◌∷◌,
  String, ◌==◌, All, find, Action, ok, pure, ◌>>=◌, ◌>>◌, arith,
}
use lumo.Base.Ends.{Ends, Ends-result, Ends-bind, Ends-same}
use lumo.Models.{Status}
use lumo.Config.{Config}
use lumo.Chain.{InvokeResult, variant_of, shipped}
use lumo.Chain.Mock
use lumo.Chain.Mock.{MockChain, MockIntent, mock_adapter, view, intent_at}
use lumo.Anchor.{build_anchor, mock_anchor, cash_out}
use lumo.Db.Rows.{Intent, Supplier}
use lumo.Db.Queries.{intent, set_status}
use lumo.Db.Repo.{Repo, add_chain_tx, mark_released}
use lumo.Pipeline.Amount.{Decimals, AmountPatterns}
use lumo.Pipeline.Guards.{Guard, GuardContext, build_guards, release}
use lumo.Pipeline.GuardChain.{
  Tally, start, applies, run_guard, run_loop, run_guards, release_check, release_context,
}
use lumo.Flow.Steps.{World, on_repo, chain_intent_id, chain_to_local}
use lumo.Flow.Settle
use lumo.Flow.Settle.{advance, sync_with, sync_status, cash_out_if, submit_to, is_released}
use lumo.Flow.Paid.Book.{IsBooked, add_chain_tx-IsBooked, mark_released-IsBooked}
use lumo.Flow.Paid.Record.{mock_cash_out-returns}
use lumo.Flow.Paid.Confirms.{IsAt, on_repo-IsAt}

and_false : (b : Bool) → (b && false) ≡ false
and_false b = ground arith

module _ {E D : Type 0} (dec : Decimals D) (pat : AmountPatterns)
    (sha256_hex : String → String) where
  -- guards that do not apply do nothing
  run_loop-idle :
      (gs : List Guard) (ctx : GuardContext) (t : Tally) (s : Repo E)
      → All (λ g. applies g ctx.stage ≡ false) gs
      → run_loop dec pat sha256_hex gs ctx t s ≡ (ok t, s)
  unfolding run_loop run_guard
  run_loop-idle [] ctx t s h = refl
  run_loop-idle (g ∷ gs) ctx t s (off, rest) = rw off (run_loop-idle gs ctx t s rest)

  -- Without the attestation guards a release is not checked.
  release_check-idle :
      (config : Config) (row : Intent) (s : Repo E)
      → config.require_attestation ≡ false
      → ltb_ℤ (pos 1) config.k_of_n ≡ false
      → release_check dec pat sha256_hex config row s ≡ (ok tt, s)
  unfolding release_check run_guards
  release_check-idle config row s h k =
      let idle : All (λ g. applies g release ≡ false) (build_guards config) = (
        and_false config.injection_scan,
        (
          and_false config.policy_engine,
          (
            and_false config.policy_signer,
            (
              rw h refl,
              (
                rw k refl,
                (
                  and_false (ltb_ℤ (pos 0) config.human_cosign_threshold),
                  (and_false config.proof_of_compute, tt),
                ),
              ),
            ),
          ),
        ),
      ) in
      rw (run_loop-idle (build_guards config) (release_context row) start s idle) refl

module _ {E : Type 0} (id : String) (payee : Supplier) (tx_hash_of : String → ℕ → String) where
  attest-noted :
      (row : Intent) (n : ℕ) (address source : String) (result : InvokeResult)
      (w : World E MockChain)
      → intent id w.repo.db ≡ some row
      → row.chain_intent_id ≡ some n
      → (Mock.attest tx_hash_of n address shipped source w.chain).0 ≡ ok result
      → Settle.attest (mock_adapter tx_hash_of) id shipped address source none w
        ≡ (on_repo (add_chain_tx id "attest_shipped" result.tx_hash) >>= λ _. pure tt)
            (record w { chain = (Mock.attest tx_hash_of n address shipped source w.chain).1 })
  unfolding Settle.attest chain_intent_id
  attest-noted row n address source result w h k r = rw (h, k, h, r) refl

  pub attest-IsAt :
      (row : Intent) (n : ℕ) (address source : String) (result : InvokeResult) (c : MockChain)
      (w : World E MockChain)
      → row.chain_intent_id ≡ some n
      → (Mock.attest tx_hash_of n address shipped source w.chain).0 ≡ ok result
      → (Mock.attest tx_hash_of n address shipped source w.chain).1 ≡ c
      → IsBooked id row payee w.repo
      → Ends
          (IsAt id payee row c)
          (Settle.attest (mock_adapter tx_hash_of) id shipped address source none)
          w
          tt
  attest-IsAt row n address source result c w k r to b =
      let v : World E MockChain = record w {
        chain = (Mock.attest tx_hash_of n address shipped source w.chain).1;
      } in
      let l =
        on_repo-IsAt id payee row c (add_chain_tx id "attest_shipped" result.tx_hash) v tt
          (add_chain_tx-IsBooked id payee row "attest_shipped" result.tx_hash w.repo b) to in
      let e = attest-noted row n address source result w b.row_is k r in
      record { returns = ap (λ q. q.0) e ∙ rw l.returns refl; after = rw (e, l.returns) l.after }

  -- `sync_status` when the chain has released the escrow
  sync-released :
      (row : Intent) (n : ℕ) (i : MockIntent) (w : World E MockChain)
      → intent id w.repo.db ≡ some row
      → row.chain_intent_id ≡ some n
      → row.status ≡ Status.escrowed
      → intent_at n w.chain.intents ≡ some i
      → i.status ≡ Mock.State.released
      → sync_status (mock_adapter tx_hash_of) id w
        ≡ (on_repo (mark_released id) >>= λ _. pure Status.released) w
  unfolding sync_status Mock.get_status variant_of chain_to_local advance
  sync-released row n i w h k st hi si = rw (h, k, hi, si, st) refl

  sync_status-IsAt :
      (row : Intent) (n : ℕ) (i : MockIntent) (c : MockChain) (w : World E MockChain)
      → row.chain_intent_id ≡ some n
      → row.status ≡ Status.escrowed
      → intent_at n c.intents ≡ some i
      → i.status ≡ Mock.State.released
      → IsAt id payee row c w
      → Ends
          (IsAt id payee (set_status Status.released row) c)
          (sync_status (mock_adapter tx_hash_of) id)
          w
          Status.released
  sync_status-IsAt row n i c w k st hi si p =
      let next = set_status Status.released row in
      let mark : Action (World E MockChain) (Unit {0}) = on_repo (mark_released id) in
      Ends-same _ (mark >>= λ _. pure Status.released) w Status.released
        (sync-released row n i w p.booked.row_is k st
          (ap (λ x. intent_at n x.intents) p.chain_is ∙ hi) si)
        (Ends-bind mark (λ _. pure Status.released) w tt Status.released
          (on_repo-IsAt id payee next c (mark_released id) w tt
            (mark_released-IsBooked id payee row w.repo p.booked) p.chain_is)
          λ q. Ends-result (IsAt id payee next c) (mark w).1 Status.released q)

  -- The status of the row at the end, and the chain.
  pub record IsDone (c : MockChain) (w : World E MockChain) : Type 0 where
    pub row : Intent
    pub row_is : intent id w.repo.db ≡ some row
    pub status_is : row.status ≡ Status.released
    pub chain_is : w.chain ≡ c

  cash_out-IsDone :
      (row : Intent) (c : MockChain) (config : Config) (w : World E MockChain)
      → build_anchor config ≡ ok mock_anchor
      → row.status ≡ Status.released
      → IsAt id payee row c w
      → Ends
          (IsDone c)
          (cash_out_if (mock_adapter tx_hash_of) true config id >>= λ _. pure Status.released)
          w
          Status.released
  unfolding cash_out
  cash_out-IsDone row c config w h st p =
      let (o, done, same) = mock_cash_out-returns id payee row w.repo st p.booked in
      record {
        returns = rw (h, done) refl;
        after =
            rw (h, done)
              (record {
                row = row;
                row_is = ap (λ rs. find (λ r. r.id == id) rs) same ∙ p.booked.row_is;
                status_is = st;
                chain_is = p.chain_is;
              });
      }

  module _ {D : Type 0} (dec : Decimals D) (pat : AmountPatterns)
      (sha256_hex : String → String) where
    -- what `release` does once the chain has released the escrow
    abbrev noting : Option String → Config → Action (World E MockChain) Status
    noting hash config = do
      on_repo (add_chain_tx id "release" hash)
      status ← sync_status (mock_adapter tx_hash_of) id
      cash_out_if (mock_adapter tx_hash_of) (is_released status) config id
      pure status

    release-noting :
        (row : Intent) (n : ℕ) (source : String) (config : Config) (result : InvokeResult)
        (w : World E MockChain)
        → config.require_attestation ≡ false
        → ltb_ℤ (pos 1) config.k_of_n ≡ false
        → intent id w.repo.db ≡ some row
        → row.chain_intent_id ≡ some n
        → (Mock.release tx_hash_of n source w.chain).0 ≡ ok result
        → Settle.release (mock_adapter tx_hash_of) dec pat sha256_hex id source config w
          ≡ noting result.tx_hash config
              (record w { chain = (Mock.release tx_hash_of n source w.chain).1 })
    unfolding Settle.release chain_intent_id
    release-noting row n source config result w a k h e r =
        rw (h, e, h, release_check-idle dec pat sha256_hex config row w.repo a k, r) refl

    pub release-IsDone :
        (row : Intent) (n : ℕ) (source : String) (config : Config) (result : InvokeResult)
        (i : MockIntent) (c : MockChain) (w : World E MockChain)
        → config.require_attestation ≡ false
        → ltb_ℤ (pos 1) config.k_of_n ≡ false
        → build_anchor config ≡ ok mock_anchor
        → row.chain_intent_id ≡ some n
        → row.status ≡ Status.escrowed
        → (Mock.release tx_hash_of n source w.chain).0 ≡ ok result
        → (Mock.release tx_hash_of n source w.chain).1 ≡ c
        → intent_at n c.intents ≡ some i
        → i.status ≡ Mock.State.released
        → IsBooked id row payee w.repo
        → Ends
            (IsDone c)
            (Settle.release (mock_adapter tx_hash_of) dec pat sha256_hex id source config)
            w
            Status.released
    release-IsDone row n source config result i c w a k anchor e st r to hi si b =
        let v : World E MockChain = record w {
          chain = (Mock.release tx_hash_of n source w.chain).1;
        } in
        let client = mock_adapter tx_hash_of in
        let finish : Status → Action (World E MockChain) Status =
          λ status. cash_out_if client (is_released status) config id >>= λ _. pure status in
        let sync = sync_status {E = E} client id in
        let note : Action (World E MockChain) (Unit {0}) =
          on_repo (add_chain_tx id "release" result.tx_hash) in
        let l =
          on_repo-IsAt id payee row c (add_chain_tx id "release" result.tx_hash) v tt
            (add_chain_tx-IsBooked id payee row "release" result.tx_hash w.repo b) to in
        let done : Ends (IsDone c) (noting result.tx_hash config) v Status.released =
          Ends-bind note (λ _. sync >>= finish) v tt Status.released l
            λ q.
              Ends-bind sync finish (note v).1 Status.released Status.released
                (sync_status-IsAt row n i c (note v).1 e st hi si q)
                λ p.
                  cash_out-IsDone (set_status Status.released row) c config (sync (note v).1).1
                    anchor refl p in
        let same = release-noting row n source config result w a k b.row_is e r in
        record { returns = ap (λ x. x.0) same ∙ done.returns; after = rw same done.after }
