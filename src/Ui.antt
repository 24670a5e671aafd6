-- ===== src/Ui.antt =====
-- lumo/ui/server.py: the trust profile that the user interface shows, and its POST requests.
-- `run_invoice` of lumo/testtool.py is an argument.
pub mod Profile
pub mod Read
use lumo.Base.{
  ℕ, ℤ, pos, negsuc, ◌*◌, Bool, true, false, not, ◌&&◌, ◌||◌, ◌⊎◌, inl, inr, Option, none, some,
  String, ◌==◌, nat_eq, ltb, if◌then◌else◌, Result, ok, err, Error, chain_error,
  submitted_unconfirmed, Action, pure, raise, value_error,
}
use lumo.Json.{Json, text, object, member, no_fields}
use lumo.Config.{Config, Trust, strict, balanced, fast}

abbrev pub int_eq : ℤ → ℤ → Bool
int_eq (pos m) (pos n) = nat_eq m n
int_eq (negsuc m) (negsuc n) = nat_eq m n
int_eq _ _ = false

abbrev pub bool_eq : Bool → Bool → Bool
bool_eq true b = b
bool_eq false b = not b

-- the fields of TRUST_FLAGS
abbrev pub trust_of : Config → Trust
trust_of c = record {
  injection_scan = c.injection_scan;
  policy_engine = c.policy_engine;
  policy_signer = c.policy_signer;
  require_attestation = c.require_attestation;
  k_of_n = c.k_of_n;
  human_cosign_threshold = c.human_cosign_threshold;
  proof_of_compute = c.proof_of_compute;
}

-- `all(flags[k] == v for k, v in p.items())`
abbrev pub matches : Trust → Trust → Bool
matches flags p =
    bool_eq flags.injection_scan p.injection_scan
    && (bool_eq flags.policy_engine p.policy_engine
        && (bool_eq flags.policy_signer p.policy_signer
            && (bool_eq flags.require_attestation p.require_attestation
                && (int_eq flags.k_of_n p.k_of_n
                    && (int_eq flags.human_cosign_threshold p.human_cosign_threshold
                        && bool_eq flags.proof_of_compute p.proof_of_compute)))))

-- the profile of `trust_state`
unfoldable pub trust_profile : Config → String
trust_profile c =
    if matches (trust_of c) strict
    then "strict"
    else if matches (trust_of c) balanced
    then "balanced"
    else if matches (trust_of c) fast
    then "fast"
    else "custom"

abbrev pub max_body : ℕ
max_body = 1024 * 1024

pub record Request : Type 0 where
  pub path : String
  pub content_length : Option String

-- the status code and the answer or the error
pub record Response : Type 0 where
  pub code : ℕ
  pub answer : Json ⊎ String

-- `json.loads` of bytes: a value, a `JSONDecodeError`, or another exception, such as for bytes that
-- are no text.
pub data Loaded : Type 0 where
  value : Json → Loaded
  json_error raised : Loaded

-- `int` is none where it raises, and `is_blank` is `not s.strip()`.
pub record Services (W : Type 0) : Type 0 where
  pub read : ℕ → W → String × W
  pub int : String → Option ℤ
  pub loads : String → Loaded
  pub is_blank : String → Bool
  pub run_invoice : String → Action W Json

abbrev pub failure : ℕ → String → Response
failure code message = record { code = code; answer = inr message }

abbrev pub is_chain_error : Error → Bool
is_chain_error chain_error = true
is_chain_error (submitted_unconfirmed h) = true
is_chain_error _ = false

module _ {W : Type 0} (sv : Services W) where
  abbrev pub answered : Result Json → Response
  answered (ok result) = record { code = 200; answer = inl result }
  answered (err e) =
      if is_chain_error e then failure 502 "chain error" else failure 500 "internal error"

  abbrev pub no_invoice : Response
  no_invoice = failure 400 "invoice_text (string) is required"

  abbrev pub run_text : Option Json → Action W Response
  run_text (some (text invoice)) w =
      if sv.is_blank invoice
      then (ok no_invoice, w)
      else (let (r, w') = sv.run_invoice invoice w in (ok (answered r), w'))
  run_text _ w = (ok no_invoice, w)

  abbrev pub run_body : Loaded → Action W Response
  run_body raised = raise value_error
  run_body json_error = pure (failure 400 "invalid JSON")
  run_body (value (object body)) = run_text (member "invoice_text" body)
  run_body (value _) = pure no_invoice

  abbrev pub load : String → Loaded
  load raw = if raw == "" then value (object no_fields) else sv.loads raw

  abbrev pub run_length : Option ℤ → Action W Response
  run_length none w = (ok (failure 400 "invalid Content-Length"), w)
  run_length (some (negsuc n)) w = (ok (failure 400 "request too large"), w)
  run_length (some (pos n)) w =
      if ltb max_body n
      then (ok (failure 400 "request too large"), w)
      else (let (raw, w') = sv.read n w in run_body (load raw) w')

  -- `int(self.headers.get("Content-Length", 0))`
  abbrev pub length_of : Option String → Option ℤ
  length_of none = some (pos 0)
  length_of (some raw) = sv.int raw

  unfoldable pub do_post : Request → Action W Response
  do_post request =
      if request.path == "/testnet/run"
      then run_length (length_of request.content_length)
      else pure (failure 404 "not found")
