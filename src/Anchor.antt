-- ===== src/Anchor.antt =====
-- lumo/anchor: the cash-out at the end of a release. The formatted amounts of the receipt are not
-- modelled.
use Prim.Native.String.{◌++◌ as str_append}
use lumo.Base.{
  not, String, ◌==◌, if◌then◌else◌, Action, Result, ok, err, pure, raise, or_raise, raise_if, gets,
  ◌>>=◌, ◌>>◌, value_error, not_implemented, other,
}
use lumo.Models.{Status, status_eq}
use lumo.Config.{Config}
use lumo.Db.Queries.{intent, supplier_by_id}
use lumo.Db.Repo.{Repo, new_id, add_anchor_payout}

pub data AnchorAdapter : Type 0 where
  mock_anchor gcash_anchor pdax_anchor : AnchorAdapter

pub record Receipt : Type 0 where
  pub id : String
  pub to : String

unfoldable pub build_anchor : Config → Result AnchorAdapter
build_anchor c =
    if c.anchor_adapter == "mock"
    then ok mock_anchor
    else if c.anchor_adapter == "gcash"
    then ok gcash_anchor
    else if c.anchor_adapter == "pdax"
    then ok pdax_anchor
    else err value_error

module _ {E : Type 0} where
  -- `mock_anchor.cash_out`
  unfoldable pub mock_cash_out : String → Action (Repo E) Receipt
  mock_cash_out id = do
    row ← (λ s. or_raise (intent id s.db) value_error s)
    raise_if (not (status_eq row.status Status.released)) value_error
    supplier ← gets (λ s. supplier_by_id row.supplier_id s.db)
    n ← new_id
    payee ← or_raise supplier other
    let ref = str_append "MOCK-" n
    add_anchor_payout id ref row.amount payee.address
    pure (record { id = ref; to = payee.address })

  unfoldable pub cash_out : AnchorAdapter → String → Action (Repo E) Receipt
  unfolding mock_cash_out
  cash_out mock_anchor id = mock_cash_out id
  cash_out gcash_anchor id = raise not_implemented
  cash_out pdax_anchor id = raise not_implemented
