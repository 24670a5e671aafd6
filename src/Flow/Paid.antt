-- ===== src/Flow/Paid.antt =====
-- A proposed intent is paid: execute, attest and release of lumo/flow.py over the in-process chain.
pub mod Book
pub mod Record
pub mod Escrow
pub mod Confirms
pub mod Executes
pub mod Settles
use lumo.Base.{
  ℕ, ℤ, pos, ◌+◌, ◌+ℤ◌, ltb_ℤ, ◌≡◌, refl, ap, sym, ◌∙◌, Bool, true, false, ◌&&◌, Option, none, some,
  List, [], ◌∷◌, String, ◌==◌, row_count, length, Action, Result, ok, pure, ◌>>=◌, ◌>>◌,
}
use lumo.Base.Ends.{Ends, Ends-bind}
use lumo.Models.{Status}
use lumo.Config.{Config}
use lumo.Chain.{shipped, InvokeResult}
use lumo.Chain.Mock
use lumo.Chain.Mock.{MockChain, MockIntent, State, mock_adapter, balance_of}
use lumo.Chain.Mock.Solvency.{IsSolvent}
use lumo.Chain.Mock.Covered.{new_intent}
use lumo.Chain.Mock.Payout.{release_pays}
use lumo.Anchor.{build_anchor, mock_anchor}
use lumo.Db.Rows.{Intent, Supplier}
use lumo.Db.Queries.{intent, is_proposed}
use lumo.Pipeline.Amount.{Decimals, AmountPatterns}
use lumo.Flow.Steps.{World}
use lumo.Flow.Execute.{execute, paying_account}
use lumo.Flow.Settle.{attest, release}
use lumo.Flow.Paid.Book.{IsBooked}
use lumo.Flow.Paid.Confirms.{IsAt}
use lumo.Flow.Paid.Executes.{args_of, escrowed_row, execute-IsAt}
use lumo.Flow.Paid.Escrow.{IsHeld, IsPossible, create-IsHeld, attest-IsHeld}
use lumo.Flow.Paid.Settles.{IsDone, attest-IsAt, release-IsDone}

-- A proposed intent of the repository that the in-process chain can fund.
pub record IsFundable {E : Type 0} (id : String) (row : Intent) (payee : Supplier) (sme : String)
    (config : Config) (w : World E MockChain) : Type 0 where
  pub booked : IsBooked id row payee w.repo
  pub proposed : row.status ≡ Status.proposed
  pub single : row_count (λ r. r.id == id && is_proposed r) w.repo.db.intents ≡ 1
  pub account : paying_account config w.repo.db ≡ some sme
  pub solvent : IsSolvent w.chain
  pub possible : IsPossible (args_of sme payee row) w.chain

-- The configuration asks for no attestation in the repository, and for the in-process anchor.
pub record IsPlain (config : Config) : Type 0 where
  pub live : config.dry_run ≡ false
  pub unattested : config.require_attestation ≡ false
  pub alone : ltb_ℤ (pos 1) config.k_of_n ≡ false
  pub anchor : build_anchor config ≡ ok mock_anchor

module _ {E D : Type 0} (tx_hash_of : String → ℕ → String) (lower : String → String)
    (dec : Decimals D) (pat : AmountPatterns) (sha256_hex : String → String) where
  -- execute, then the attestation of the shipment, then release
  abbrev pub pay : String → Config → String → String → String → Action (World E MockChain) Status
  pay id config source oracle_address oracle_source =
      execute (mock_adapter tx_hash_of) lower id source config >>= λ _.
      attest (mock_adapter tx_hash_of) id shipped oracle_address oracle_source none >>= λ _.
      release (mock_adapter tx_hash_of) dec pat sha256_hex id source config

  pub pay-Ends :
      (id : String) (row : Intent) (payee : Supplier) (sme : String) (config : Config)
      (source oracle_address oracle_source : String) (w : World E MockChain)
      → IsPlain config
      → IsFundable id row payee sme config w
      → (c : MockChain) × Ends
          (IsDone id payee tx_hash_of c)
          (pay id config source oracle_address oracle_source)
          w
          Status.released
        × (balance_of row.token payee.address c
            ≡ balance_of row.token payee.address w.chain +ℤ row.amount)
  pay-Ends id row payee sme config source oracle_address oracle_source w plain f =
      let args = args_of sme payee row in
      let n = length w.chain.intents + 1 in
      let c1 = (Mock.create_intent tx_hash_of args source w.chain).1 in
      let (r1, h1, b1) = create-IsHeld tx_hash_of args source w.chain f.solvent f.possible in
      let c2 = (Mock.attest tx_hash_of n oracle_address shipped oracle_source c1).1 in
      let (r2, h2, b2) =
        attest-IsHeld tx_hash_of n oracle_address oracle_source (new_intent args) c1 refl refl h1 in
      let c3 = (Mock.release tx_hash_of n source c2).1 in
      let shipped_intent = record (new_intent args) { attestation = some shipped } in
      let (r3, b3, h3) =
        release_pays tx_hash_of n source shipped_intent c2 h2.solvent h2.held refl refl in
      let client = mock_adapter tx_hash_of in
      let run1 = execute {E = E} client lower id source config in
      let run2 = attest {E = E} client id shipped oracle_address oracle_source none in
      let run3 = release {E = E} client dec pat sha256_hex id source config in
      let l1 =
        execute-IsAt id payee tx_hash_of lower row source config sme w plain.live f.proposed
          f.single f.account f.solvent f.possible f.booked in
      (
        c3,
        Ends-bind run1 (λ _. run2 >>= λ _. run3) w (some n) Status.released l1
            λ q.
              Ends-bind run2 (λ _. run3) (run1 w).1 tt Status.released
                (attest-IsAt id payee tx_hash_of (escrowed_row n row) n oracle_address oracle_source
                  (record {
                    value = none;
                    tx_hash = some (tx_hash_of "attest_Shipped" (c1.tx_count + 1));
                  })
                  c2 (run1 w).1 refl
                  (ap (λ x. (Mock.attest tx_hash_of n oracle_address shipped oracle_source x).0)
                      q.chain_is
                    ∙ r2)
                  (ap (λ x. (Mock.attest tx_hash_of n oracle_address shipped oracle_source x).1)
                    q.chain_is)
                  q.booked)
                λ p.
                  release-IsDone id payee tx_hash_of dec pat sha256_hex (escrowed_row n row) n
                    source config
                    (record { value = none; tx_hash = some (tx_hash_of "release" c3.tx_count) })
                    (record shipped_intent { status = State.released }) c3 (run2 (run1 w).1).1
                    plain.unattested plain.alone plain.anchor refl refl
                    (ap (λ x. (Mock.release tx_hash_of n source x).0) p.chain_is ∙ r3)
                    (ap (λ x. (Mock.release tx_hash_of n source x).1) p.chain_is) h3 refl p.booked,
        b3 ∙ ap (λ b. b +ℤ row.amount) (b2 row.token payee.address ∙ b1),
      )
