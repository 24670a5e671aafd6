-- ===== src/Tests/Policy.antt =====
-- The policy engine, the settings, the event bus and the injection scan on small inputs.
use lumo.Base.{
  none, Option, if◌then◌else◌, ◌==◌, ℤ, pos, ◌+ℤ◌, ◌≤ℤ◌, ◌≤◌, ◌≡◌, ◌↔◌, refl, true, false, not,
  some, [], ◌∷◌, ◌++◌, String, elem, length, any, ok, arith, All,
}
use lumo.Models.{PaymentRequest, PolicyContext, Status}
use lumo.Policy.{
  evaluate, committed, is_empty, missing_amount, is_none, mismatch, injection_suspected,
  invalid_amount, unknown_supplier, address_mismatch, duplicate_request, over_tx_cap,
  over_daily_cap, ok_code,
}
use lumo.Policy.Verdict.{
  IsPermitted, evaluate-allowed_iff, evaluate-codes, breaks_tx_cap, breaks_daily_cap,
}
use lumo.Policy.Daily.{evaluate-daily}
use lumo.Config.Env.{Environ, from_env}
use lumo.Config.{defaults, post_init}
use lumo.Config.Valid.{IsValid, post_init_iff, from_env-IsValid}
use lumo.Monitor.{Event, EventBus, publish, max_recent}
use lumo.Monitor.Recent.{recent-publish}
use lumo.Injection.{Text, Scanner, normalize, is_zero_width, translate, homoglyphs}
use lumo.Injection.Clean.{normalize_lem}

abbrev bill : PaymentRequest
bill = record {
  supplier_name = some "Acme";
  registry_address = some "SUP";
  invoice_address = some "SUP";
  amount_stroops = some (pos 5);
  request_hash = "H1";
  injection_flags = [];
}

abbrev limits : PolicyContext
limits = record {
  cap_per_tx = pos 10;
  cap_daily = pos 12;
  prior_intents = record { amount = pos 7; status = Status.escrowed } ∷ [];
  known_request_hashes = "H0" ∷ [];
}

evaluate-allowed_iff_example : ((evaluate bill limits).allowed ≡ true) ↔ IsPermitted bill limits
evaluate-allowed_iff_example = evaluate-allowed_iff bill limits

bill_allowed : (evaluate bill limits).allowed ≡ true
unfolding evaluate committed ◌+ℤ◌
bill_allowed = refl

evaluate-daily_example :
    committed (limits.prior_intents ++ record { amount = pos 5; status = Status.proposed } ∷ [])
    ≤ℤ pos 12
evaluate-daily_example = evaluate-daily bill limits (pos 5) bill_allowed refl

evaluate-codes_example :
    let codes = (evaluate bill limits).codes in
    (elem injection_suspected codes ≡ not (is_empty bill.injection_flags))
    × (elem invalid_amount codes ≡ missing_amount bill.amount_stroops)
    × (elem unknown_supplier codes ≡ is_none bill.registry_address)
    × (elem address_mismatch codes ≡ mismatch bill.invoice_address bill.registry_address)
    × (elem duplicate_request codes ≡ elem bill.request_hash limits.known_request_hashes)
    × (elem over_tx_cap codes ≡ breaks_tx_cap bill.amount_stroops limits)
    × (elem over_daily_cap codes ≡ breaks_daily_cap bill.amount_stroops limits)
    × (elem ok_code codes ≡ (evaluate bill limits).allowed)
evaluate-codes_example = evaluate-codes bill limits

abbrev keep : String → String
keep s = s

post_init_iff_example :
    (post_init keep defaults ≡ ok defaults)
    ↔ (IsValid defaults × (defaults ≡ record defaults { sme_smart_account = "" }))
post_init_iff_example = post_init_iff keep defaults defaults

abbrev bus : EventBus (Unit {0})
bus = record { enabled = true; subscribers = []; recent = []; env = tt }

abbrev tick : Event
tick = record { name = "tick"; payload = [] }

recent-publish_example : length (publish tick bus).1.recent ≤ max_recent
recent-publish_example = recent-publish tick bus (omega arith)

abbrev scanner : Scanner
scanner = record { nfkc = λ t. t; search = λ rx t. false; find_all = λ rx t. [] }

abbrev sneaky : Text
sneaky = b'a' ∷ 0x200b ∷ 0x430 ∷ []

normalize_lem_example :
    let (normalized, had_hidden) = normalize scanner sneaky in
    All (λ c. (is_zero_width c ≡ false) × (translate homoglyphs c ≡ c)) normalized
    × (had_hidden ≡ any is_zero_width sneaky)
normalize_lem_example = normalize_lem scanner sneaky

-- an environment that sets one variable, and no file
abbrev environ : Environ
environ name = if name == "LUMO_K_OF_N" then some "3" else none

abbrev three : String → Option ℤ
three s = if s == "3" then some (pos 3) else none

from_env-IsValid_example : IsValid (record defaults { k_of_n = pos 3 })
unfolding from_env post_init
from_env-IsValid_example =
    from_env-IsValid (λ s. s) (λ s. s) three (λ path. none) environ
      (record defaults { k_of_n = pos 3 }) refl
