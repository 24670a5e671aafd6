-- ===== src/Flow/Steps.antt =====
-- The state of the flow, and what its operations share.
use lumo.Base.{
  ℕ, String, ◌==◌, if◌then◌else◌, Action, Result, ok, err, or_raise, ◌>>=◌, value_error, key_error,
}
use lumo.Models.{Status}
use lumo.Db.Rows.{Intent}
use lumo.Db.Queries.{intent}
use lumo.Db.Repo.{Repo}

pub record World (E C : Type 0) : Type 0 where
  pub repo : Repo E
  pub chain : C

module _ {E C A : Type 0} where
  abbrev pub on_repo : Action (Repo E) A → Action (World E C) A
  on_repo m w = let (r, repo) = m w.repo in (r, record w { repo = repo })

  abbrev pub on_chain : Action C A → Action (World E C) A
  on_chain m w = let (r, chain) = m w.chain in (r, record w { chain = chain })

  abbrev pub lift : Result A → Action (World E C) A
  lift r w = (r, w)

module _ {E C : Type 0} where
  -- a row that has to be there
  abbrev pub known_intent : String → Action (World E C) Intent
  known_intent id w = or_raise (intent id w.repo.db) value_error w

  -- `_chain_intent_id`
  unfoldable pub chain_intent_id : String → Action (World E C) ℕ
  chain_intent_id id = do row ← known_intent id; or_raise row.chain_intent_id value_error

-- CHAIN_TO_LOCAL
unfoldable pub chain_to_local : String → Result Status
chain_to_local v =
    if v == "Funded"
    then ok Status.escrowed
    else if v == "Released"
    then ok Status.released
    else if v == "Refunded"
    then ok Status.reverted
    else err key_error
