-- ===== src/Pipeline/Guards.antt =====
-- lumo/pipeline.py: the guards and what each of them checks. The reason texts are not modelled.
use lumo.Base.{
  ℤ, pos, Bool, true, false, not, ◌&&◌, Option, none, some, List, [], ◌∷◌, ◌++◌, String, ◌==◌,
  if◌then◌else◌, elem, leb_ℤ, ltb_ℤ, length, select, map, Result, ok, err, other,
}
use lumo.Models.{PaymentRequest, PolicyContext}
use lumo.Policy.{evaluate, injection_suspected, invalid_amount, code_if, is_empty}
use lumo.Config.{Config}
use lumo.Injection.{Text}
use lumo.Chain.{Kind, shipped}
use lumo.Db.Rows.{Intent, Tables}
use lumo.Db.Queries.{attestations}
use lumo.Pipeline.Amount.{Decimals, AmountPatterns, amount_matches_text}

abbrev pub signer_supplier_not_allowed : String
signer_supplier_not_allowed = "SIGNER_SUPPLIER_NOT_ALLOWED"

abbrev pub signer_over_cap : String
signer_over_cap = "SIGNER_OVER_CAP"

abbrev pub attestation_missing : String
attestation_missing = "ATTESTATION_MISSING"

abbrev pub kofn_unmet : String
kofn_unmet = "KOFN_UNMET"

abbrev pub cosign_required : String
cosign_required = "COSIGN_REQUIRED"

abbrev pub poc_receipt_invalid : String
poc_receipt_invalid = "POC_RECEIPT_INVALID"

abbrev pub amount_mismatch : String
amount_mismatch = "AMOUNT_MISMATCH"

pub data Outcome : Type 0 where
  passed refused held : Outcome

pub record GuardResult : Type 0 where
  pub outcome : Outcome
  pub codes : List String

abbrev pub pass_result : GuardResult
pass_result = record { outcome = passed; codes = [] }

pub data Stage : Type 0 where
  propose release : Stage

abbrev pub stage_eq : Stage → Stage → Bool
stage_eq propose propose = true
stage_eq release release = true
stage_eq _ _ = false

-- A compute receipt by its two entries; `payload` is the text of a missing entry too.
pub record ComputeReceipt : Type 0 where
  pub digest : Option String
  pub payload : String

pub record GuardContext : Type 0 where
  pub stage : Stage
  pub request : Option PaymentRequest
  pub policy : Option PolicyContext
  pub supplier_addresses : List String
  pub cosign_token : Option String
  pub compute_receipt : Option ComputeReceipt
  pub intent : Option Intent
  pub invoice_text : Text

-- The guard classes with what their constructors keep.
pub data GuardKind : Type 0 where
  injection policy_engine policy_signer attestation proof_of_compute amount_cross_check : GuardKind
  k_of_n human_cosign : ℤ → GuardKind

pub record Guard : Type 0 where
  pub kind : GuardKind
  pub enabled : Bool

abbrev pub stage_of : GuardKind → Stage
stage_of attestation = release
stage_of (k_of_n k) = release
stage_of _ = propose

-- `type(guard).__name__`
abbrev pub class_name : GuardKind → String
class_name injection = "InjectionGuard"
class_name policy_engine = "PolicyEngineGuard"
class_name policy_signer = "PolicySignerGuard"
class_name attestation = "AttestationGuard"
class_name (k_of_n k) = "KofNOracleGuard"
class_name (human_cosign t) = "HumanCosignGuard"
class_name proof_of_compute = "ProofOfComputeGuard"
class_name amount_cross_check = "AmountCrossCheckGuard"

unfoldable pub build_guards : Config → List Guard
build_guards c =
    record { kind = injection; enabled = c.injection_scan }
    ∷ record { kind = policy_engine; enabled = c.policy_engine }
    ∷ record { kind = policy_signer; enabled = c.policy_signer }
    ∷ record { kind = attestation; enabled = c.require_attestation }
    ∷ record { kind = k_of_n c.k_of_n; enabled = ltb_ℤ (pos 1) c.k_of_n }
    ∷ record {
      kind = human_cosign c.human_cosign_threshold;
      enabled = ltb_ℤ (pos 0) c.human_cosign_threshold;
    }
    ∷ record { kind = proof_of_compute; enabled = c.proof_of_compute }
    ∷ []

abbrev pub refuse_if : Bool → List String → GuardResult
refuse_if true codes = record { outcome = refused; codes = codes }
refuse_if false codes = pass_result

-- A set comprehension: each element once.
unfoldable pub to_set : List String → List String
to_set [] = []
to_set (x ∷ xs) = let rest = to_set xs in if elem x rest then rest else x ∷ rest

abbrev pub is_shipped : Kind → Bool
is_shipped shipped = true
is_shipped _ = false

unfoldable pub shipped_oracles : Intent → Tables → List String
unfolding to_set
shipped_oracles row db = to_set (
    map (λ a. a.oracle_address)
      (select (λ a. is_shipped a.kind && a.request_hash == row.request_hash)
        (attestations row.id db)))

abbrev pub truthy : Option String → Bool
truthy none = false
truthy (some s) = not (s == "")

-- The checks, once the context holds what they read.
abbrev pub check_injection : PaymentRequest → GuardResult
check_injection req = refuse_if (not (is_empty req.injection_flags)) (injection_suspected ∷ [])

unfoldable pub check_engine : PaymentRequest → PolicyContext → GuardResult
check_engine req policy = let e = evaluate req policy in refuse_if (not e.allowed) e.codes

abbrev is_allowed : Option String → List String → Bool
is_allowed none addresses = false
is_allowed (some a) addresses = elem a addresses

abbrev is_over : Option ℤ → ℤ → Bool
is_over none cap = false
is_over (some a) cap = ltb_ℤ cap a

unfoldable pub check_signer : PaymentRequest → PolicyContext → List String → GuardResult
check_signer req policy addresses =
    let codes =
      code_if (not (is_allowed req.registry_address addresses)) signer_supplier_not_allowed
      ++ code_if (is_over req.amount_stroops policy.cap_per_tx) signer_over_cap in
    refuse_if (not (is_empty codes)) codes

unfoldable pub check_cosign : ℤ → PaymentRequest → Option String → GuardResult
check_cosign threshold req token =
    if is_over req.amount_stroops threshold && not (truthy token)
    then record { outcome = held; codes = cosign_required ∷ [] }
    else pass_result

unfoldable pub check_attestation : Intent → Tables → GuardResult
check_attestation row db = refuse_if (is_empty (shipped_oracles row db)) (attestation_missing ∷ [])

unfoldable pub check_k_of_n : ℤ → Intent → Tables → GuardResult
check_k_of_n k row db =
    refuse_if (not (leb_ℤ k (pos (length (shipped_oracles row db))))) (kofn_unmet ∷ [])

abbrev with_request : GuardContext → (PaymentRequest → Result GuardResult) → Result GuardResult
with_request ctx f = elim ctx.request [ none ↦ err other | some req ↦ f req ]

abbrev with_policy : GuardContext → (PolicyContext → Result GuardResult) → Result GuardResult
with_policy ctx f = elim ctx.policy [ none ↦ err other | some p ↦ f p ]

abbrev with_intent : GuardContext → (Intent → Result GuardResult) → Result GuardResult
with_intent ctx f = elim ctx.intent [ none ↦ err other | some row ↦ f row ]

module _ {D : Type 0} (dec : Decimals D) (pat : AmountPatterns) (sha256_hex : String → String) where
  unfoldable pub check_amount : Option ℤ → Text → GuardResult
  check_amount none text = refuse_if true (invalid_amount ∷ [])
  check_amount (some a) text =
      refuse_if (not (amount_matches_text dec pat a text)) (amount_mismatch ∷ [])

  unfoldable pub check_receipt : Option ComputeReceipt → GuardResult
  check_receipt none = refuse_if true (poc_receipt_invalid ∷ [])
  check_receipt (some r) = elim r.digest [
    | none ↦ refuse_if true (poc_receipt_invalid ∷ [])
    | some d ↦ refuse_if (not (d == sha256_hex r.payload)) (poc_receipt_invalid ∷ [])
  ]

  -- `guard.check(ctx)`; reading an attribute of None raises.
  unfoldable pub check : GuardKind → GuardContext → Tables → Result GuardResult
  check injection ctx db = with_request ctx λ req. ok (check_injection req)
  check policy_engine ctx db = with_request ctx λ req. with_policy ctx λ p. ok (check_engine req p)
  check policy_signer ctx db =
      with_request ctx λ req. with_policy ctx λ p. ok (check_signer req p ctx.supplier_addresses)
  check attestation ctx db = with_intent ctx λ row. ok (check_attestation row db)
  check (k_of_n k) ctx db = with_intent ctx λ row. ok (check_k_of_n k row db)
  check (human_cosign t) ctx db = with_request ctx λ req. ok (check_cosign t req ctx.cosign_token)
  check proof_of_compute ctx db = ok (check_receipt ctx.compute_receipt)
  check amount_cross_check ctx db =
      with_request ctx λ req. ok (check_amount req.amount_stroops ctx.invoice_text)
