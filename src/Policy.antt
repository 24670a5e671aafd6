-- ===== src/Policy.antt =====
-- lumo/policy/engine.py: the policy engine, a pure function from a payment request and its
-- context to a verdict with reason codes.
pub mod Verdict
pub mod Daily
use lumo.Base.{
  ℤ, pos, ◌+ℤ◌, ltb_ℤ, leb_ℤ, Bool, true, false, not, ◌&&◌, ◌||◌, Option, none, some, List, [], ◌∷◌,
  ◌++◌, String, ◌==◌, if◌then◌else◌, elem, foldl, select,
}
use lumo.Models.{Status, PriorIntent, PaymentRequest, PolicyContext, Evaluation}

abbrev pub ok_code : String
ok_code = "OK"

abbrev pub injection_suspected : String
injection_suspected = "INJECTION_SUSPECTED"

abbrev pub invalid_amount : String
invalid_amount = "INVALID_AMOUNT"

abbrev pub unknown_supplier : String
unknown_supplier = "UNKNOWN_SUPPLIER"

abbrev pub address_mismatch : String
address_mismatch = "ADDRESS_MISMATCH"

abbrev pub duplicate_request : String
duplicate_request = "DUPLICATE_REQUEST"

abbrev pub over_tx_cap : String
over_tx_cap = "OVER_TX_CAP"

abbrev pub over_daily_cap : String
over_daily_cap = "OVER_DAILY_CAP"

-- `status in COUNTED_STATUSES`
abbrev pub is_counted : Status → Bool
is_counted Status.proposed = true
is_counted Status.escrowed = true
is_counted Status.released = true
is_counted _ = false

-- `if test: codes.append(code)`
abbrev pub code_if : Bool → String → List String
code_if true c = c ∷ []
code_if false c = []

abbrev pub add_amount : ℤ → PriorIntent → ℤ
add_amount acc i = acc +ℤ i.amount

-- Python's `sum` adds from the left.
unfoldable pub committed : List PriorIntent → ℤ
committed intents = foldl add_amount (pos 0) (select (λ i. is_counted i.status) intents)

abbrev pub missing_amount : Option ℤ → Bool
missing_amount none = true
missing_amount (some a) = leb_ℤ a (pos 0)

abbrev pub mismatch : Option String → Option String → Bool
mismatch (some i) (some r) = not (i == r)
mismatch _ _ = false

abbrev pub cap_codes : Option ℤ → PolicyContext → List String
cap_codes none ctx = []
cap_codes (some a) ctx =
    if ltb_ℤ (pos 0) a
    then code_if (ltb_ℤ ctx.cap_per_tx a) over_tx_cap
      ++ code_if (ltb_ℤ ctx.cap_daily (committed ctx.prior_intents +ℤ a)) over_daily_cap
    else []

abbrev pub is_empty : List String → Bool
is_empty [] = true
is_empty (_ ∷ _) = false

abbrev pub is_none : Option String → Bool
is_none none = true
is_none (some _) = false

unfoldable pub violations : PaymentRequest → PolicyContext → List String
violations req ctx =
    code_if (not (is_empty req.injection_flags)) injection_suspected
    ++ (code_if (missing_amount req.amount_stroops) invalid_amount
        ++ (code_if (is_none req.registry_address) unknown_supplier
            ++ (code_if (mismatch req.invoice_address req.registry_address) address_mismatch
                ++ (code_if (elem req.request_hash ctx.known_request_hashes) duplicate_request
                    ++ cap_codes req.amount_stroops ctx))))

abbrev pub verdict : List String → Evaluation
verdict [] = record { allowed = true; codes = ok_code ∷ [] }
verdict codes = record { allowed = false; codes = codes }

unfoldable pub evaluate : PaymentRequest → PolicyContext → Evaluation
unfolding violations
evaluate req ctx = verdict (violations req ctx)
