-- ===== src/Oracle.antt =====
-- lumo/oracle/adapter.py: the sources of attestations.
use lumo.Base.{
  Option, none, some, List, [], ◌∷◌, String, ◌==◌, if◌then◌else◌, Action, Result, ok, err, pure,
  raise, ◌>>◌, value_error, not_implemented,
}
use lumo.Config.{Config}
use lumo.Chain.{Kind}
use lumo.Db.Repo.{Repo, add_attestation}

pub data AttestationSource : Type 0 where
  local_signer_set : List String → AttestationSource
  shipment_api : AttestationSource

module _ {E : Type 0} where
  unfoldable pub add_all : List String → String → Kind → String → Action (Repo E) (Unit {0})
  add_all [] id kind request_hash = pure tt
  add_all (signer ∷ signers) id kind request_hash =
      add_attestation id signer kind request_hash >> add_all signers id kind request_hash

  unfoldable pub submit : AttestationSource → String → Kind → String → Action (Repo E) (List String)
  unfolding add_all
  submit (local_signer_set signers) id kind request_hash =
      add_all signers id kind request_hash >> pure signers
  submit shipment_api id kind request_hash = raise not_implemented

-- `split_names` splits at the commas, strips each part and drops the empty ones.
module _ (split_names : String → List String) where
  abbrev or_address : List String → String → List String
  or_address [] address = address ∷ []
  or_address (s ∷ ss) address = s ∷ ss

  unfoldable pub build_oracle : Config → Result (Option AttestationSource)
  build_oracle c =
      if c.oracle_adapter == ""
      then ok none
      else if c.oracle_adapter == "local"
      then ok (some (local_signer_set (or_address (split_names c.oracle_signers) c.oracle_address)))
      else if c.oracle_adapter == "shipment_api"
      then ok (some shipment_api)
      else err value_error
