-- ===== src/Sdk/Attest.antt =====
-- What `attest` of the client records.
use lumo.Base.{
  ◌≡◌, ap, sym, ◌∙◌, some, List, [], ◌∷◌, ◌++◌, map, String, ◌==◌, any, ok, Bool-cases,
  Option-cases, Result-cases, inl, inr, arith, bind_ok, bind_state, append_assoc, append-nil,
  map-append, or_default, pure,
}
use lumo.Config.{Config}
use lumo.Chain.{Kind}
use lumo.Db.Rows.{Intent, Attestation, insert_attestation, has_intent}
use lumo.Db.Queries.{intent}
use lumo.Db.Repo.{Repo, add_attestation}
use lumo.Oracle.{AttestationSource, local_signer_set, shipment_api, add_all, submit, build_oracle}
use lumo.Sdk.{kind_of, local_oracle, attest}

-- an attestation without its id
abbrev pub Entry : Type 0
Entry = String × String × Kind × String

abbrev pub entry : Attestation → Entry
entry a = (a.intent_id, a.oracle_address, a.kind, a.request_hash)

abbrev pub entries : List Attestation → List Entry
entries rows = map entry rows

-- one entry for each signer
abbrev pub signed_by : List String → String → Kind → String → List Entry
signed_by signers id kind hash = map (λ g. (id, g, kind, hash)) signers

module _ {E : Type 0} where
  add_attestation-entries :
      (id oracle : String) (kind : Kind) (hash : String) (s : Repo E)
      → (add_attestation id oracle kind hash s).0 ≡ ok tt
      → entries (add_attestation id oracle kind hash s).1.db.attestations
        ≡ entries s.db.attestations ++ (id, oracle, kind, hash) ∷ []
  unfolding add_attestation insert_attestation
  add_attestation-entries id oracle kind hash s h =
      elim (Bool-cases (any (λ q. q.id == s.ids s.minted) s.db.attestations)) [
        | inl taken ↦ absurd (ground arith)
        | inr free ↦ elim (Bool-cases (has_intent id s.db)) [
          | inl known ↦
              rw (free, known)
                (map-append entry s.db.attestations (
                  record {
                    id = s.ids s.minted;
                    intent_id = id;
                    oracle_address = oracle;
                    kind = kind;
                    request_hash = hash;
                  }
                  ∷ []))
          | inr unknown ↦ absurd (ground arith)
        ]
      ]

  add_all-entries :
      (signers : List String) (id : String) (kind : Kind) (hash : String) (s : Repo E)
      → (add_all signers id kind hash s).0 ≡ ok tt
      → entries (add_all signers id kind hash s).1.db.attestations
        ≡ entries s.db.attestations ++ signed_by signers id kind hash
  unfolding add_all
  add_all-entries [] id kind hash s h = sym (append-nil (entries s.db.attestations))
  add_all-entries (g ∷ signers) id kind hash s h =
      let (_, first, h2) = bind_ok (add_attestation id g kind hash s) _ tt h in
      let s1 = (add_attestation id g kind hash s).1 in
      let state : (add_all (g ∷ signers) id kind hash s).1 ≡ (add_all signers id kind hash s1).1 =
        bind_state (add_attestation id g kind hash s) (λ _. add_all signers id kind hash) tt
          first in
      ap (λ (t : Repo E). entries t.db.attestations) state
      ∙ (add_all-entries signers id kind hash s1 h2
          ∙ (ap (λ es. es ++ signed_by signers id kind hash)
                (add_attestation-entries id g kind hash s first)
              ∙ append_assoc (entries s.db.attestations) ((id, g, kind, hash) ∷ [])
                  (signed_by signers id kind hash)))

  submit-entries :
      (source : AttestationSource) (id : String) (kind : Kind) (hash : String) (s : Repo E)
      (signers : List String)
      → (submit source id kind hash s).0 ≡ ok signers
      → entries (submit source id kind hash s).1.db.attestations
        ≡ entries s.db.attestations ++ signed_by signers id kind hash
  unfolding submit
  submit-entries (local_signer_set names) id kind hash s signers h =
      let (_, done, h2) = bind_ok (add_all names id kind hash s) _ signers h in
      let same : names ≡ signers = ground arith in
      ap (λ (t : Repo E). entries t.db.attestations)
        (bind_state (add_all names id kind hash s) (λ _. pure names) tt done)
      ∙ (add_all-entries names id kind hash s done
          ∙ ap (λ ns. entries s.db.attestations ++ signed_by ns id kind hash) same)
  submit-entries shipment_api id kind hash s signers h = absurd (ground arith)

  -- If `attest` returns, its kind is one of ATTEST_KINDS, the intent is there, and the attestations
  -- are those of before with one more for each signer that it returns, in their order, for the
  -- intent, with that kind and with the request hash of the intent.
  pub attest-entries :
      (split_names : String → List String) (config : Config) (id kind : String) (s : Repo E)
      (signers : List String)
      → (attest split_names config id kind s).0 ≡ ok signers
      → (known : Kind) × (row : Intent) × (kind_of kind ≡ some known)
        × (intent id s.db ≡ some row)
        × (entries (attest split_names config id kind s).1.db.attestations
            ≡ entries s.db.attestations ++ signed_by signers id known row.request_hash)
  unfolding attest
  attest-entries split_names config id kind s signers h = elim (Option-cases (kind_of kind)) [
    | inl unknown ↦ (let h1 = rw (attest, unknown) at h in absurd (ground arith))
    | inr (known, e) ↦ elim (Option-cases (intent id s.db)) [
      | inl missing ↦ (let h1 = rw (attest, e, missing) at h in absurd (ground arith))
      | inr (row, found) ↦ elim (Result-cases (build_oracle split_names config)) [
        | inr (x, bad) ↦ (let h1 = rw (attest, e, found, bad) at h in absurd (ground arith))
        | inl (oracle, built) ↦
            (let h1 = rw (attest, e, found, built) at h in
              (
                known,
                row,
                e,
                found,
                rw (attest, e, found, built)
                    (submit-entries (or_default oracle (local_oracle config)) id known
                      row.request_hash s signers h1),
              ))
      ]
    ]
  ]
