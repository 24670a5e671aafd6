-- ===== src/Api.antt =====
-- lumo/api.py: the HTTP API. `W` is the world of a request: the client with its database, the
-- connection, the network. The HTTP server and the writing of responses are not modelled.
mod Document
pub mod Sound
pub mod Urls
pub mod Bodies
use lumo.Base.{
  ℕ, ℤ, pos, negsuc, ◌*◌, Bool, true, false, not, ◌||◌, ◌⊎◌, inl, inr, Option, none, some, List, [],
  ◌∷◌, ◌++◌, map, String, ◌==◌, if◌then◌else◌, ltb, elem, Action, Result, ok, err, Error, other,
  pure, raise, gets, modify, ◌>>=◌, ◌>>◌,
}
use lumo.Api.Document.{openapi}
use lumo.Json.{Json, null, text, object, Fields, no_fields, member, dict, list}
use lumo.Monitor.Webhooks.{is_webhook_url_error}

abbrev pub max_body_bytes : ℕ
max_body_bytes = 1024 * 1024

pub record Request : Type 0 where
  pub path : String
  pub content_length : Option String

pub record Response : Type 0 where
  pub code : ℕ
  pub content : Json

-- `LumoClient`, opened when it is first used, with the JSON of what it returns; the dispatcher's
-- check of a URL and the constructor's subscription; the connection. `int` is none where it
-- raises, `loads` is the message of the `ValueError` that it raises, and the patterns give their first group.
pub record Services (W : Type 0) : Type 0 where
  pub propose : String → Action W Json
  pub status : String → Action W (Option Json)
  pub attest : String → String → Action W (Unit {0})
  pub metrics : Action W Json
  pub subscribe : Action W (Unit {0})
  pub validate_url : String → Action W (Unit {0})
  pub read : ℕ → W → String × W
  pub int : String → Option ℤ
  pub loads : String → Json ⊎ String
  -- `PipelineResult.model_json_schema()`
  pub result_schema : Json
  pub intent_path : String → Option String
  pub attest_path : String → Option String

-- The class attributes and the world.
pub record Handler (W : Type 0) : Type 0 where
  pub dispatcher : Option (List String)
  pub world : W

-- what `_body` raises
pub data BodyError : Type 0 where
  too_large : BodyError
  invalid : String → BodyError

abbrev pub failure : ℕ → String → Response
failure code message = record { code = code; content = dict (("error", text message) ∷ []) }

abbrev pub success : Json → Response
success content = record { code = 200; content = content }

abbrev pub text_of : Option Json → String
text_of (some (text s)) = s
text_of _ = ""

-- `Exception` is caught.
abbrev pub or_500 : {W : Type 0} → Result Response × W → Response × W
or_500 (ok r, w) = (r, w)
or_500 (err e, w) = (failure 500 "internal server error", w)

-- One of ATTEST_KINDS
abbrev pub is_kind : String → Bool
is_kind kind = elem kind ("Shipped" ∷ "Failed" ∷ [])

module _ {W : Type 0} (sv : Services W) where
  abbrev pub on_world : {A : Type 0} → Action W A → Action (Handler W) A
  on_world m h = let (r, w) = m h.world in (r, record h { world = w })

  -- `json.loads(raw) if raw else {}`, which has to be an object
  abbrev pub parsed : Json ⊎ String → Fields ⊎ BodyError
  parsed (inl (object fs)) = inl fs
  parsed (inl _) = inr (invalid "body must be a JSON object")
  parsed (inr message) = inr (invalid message)

  abbrev pub parse : String → Fields ⊎ BodyError
  parse raw = if raw == "" then inl no_fields else parsed (sv.loads raw)

  abbrev pub read_body : ℤ → W → (Fields ⊎ BodyError) × W
  read_body (negsuc n) w = (inr (invalid "Content-Length must not be negative"), w)
  read_body (pos n) w =
      if ltb max_body_bytes n
      then (inr too_large, w)
      else (let (raw, w') = sv.read n w in (parse raw, w'))

  -- the length as `int` reads it
  abbrev pub body_with : Option ℤ → W → (Fields ⊎ BodyError) × W
  body_with none w = (inr (invalid "Content-Length must be an integer"), w)
  body_with (some length) w = read_body length w

  abbrev pub body_for : Option String → W → (Fields ⊎ BodyError) × W
  body_for none w = (inr (invalid "Content-Length header is required"), w)
  body_for (some raw_length) w = body_with (sv.int raw_length) w

  unfoldable pub body : Request → W → (Fields ⊎ BodyError) × W
  body request = body_for request.content_length

  abbrev pub found : Option Json → Response
  found none = failure 404 "unknown intent"
  found (some row) = success row

  abbrev pub get_intent : Option String → Action (Handler W) Response
  get_intent none = pure (failure 404 "not found")
  get_intent (some id) = do row ← on_world (sv.status id); pure (found row)

  unfoldable pub do_get : Request → Action (Handler W) Response
  do_get request =
      if request.path == "/v1/metrics"
      then (do snapshot ← on_world sv.metrics; pure (success snapshot))
      else if request.path == "/v1/openapi.json"
      then pure (success (openapi sv.result_schema))
      else get_intent (sv.intent_path request.path)

  abbrev pub post_intent : Fields → Action (Handler W) Response
  post_intent fs =
      let invoice = text_of (member "invoice" fs) in
      if invoice == ""
      then pure (failure 400 "invoice (string) is required")
      else (do decision ← on_world (sv.propose invoice); pure (success decision))

  -- `_dispatcher`: made and subscribed on first use
  abbrev pub new_dispatcher : Action (Handler W) (List String)
  new_dispatcher = do
    modify (λ h. record h { dispatcher = some [] })
    on_world sv.subscribe
    pure []

  abbrev pub dispatcher_of : Option (List String) → Action (Handler W) (List String)
  dispatcher_of none = new_dispatcher
  dispatcher_of (some urls) = pure urls

  abbrev pub url_list : List String → Response
  url_list urls = success (dict (("urls", list (map text urls)) ∷ []))

  -- `dispatcher.register`, and the `except WebhookURLError` around it
  abbrev pub registered :
      String → List String → Result (Unit {0}) × Handler W → Result Response × Handler W
  registered url urls (ok _, h) =
      (ok (url_list (urls ++ url ∷ [])), record h { dispatcher = some (urls ++ url ∷ []) })
  registered url urls (err e, h) =
      if is_webhook_url_error e
      then (ok (failure 400 "invalid or disallowed webhook url"), h)
      else (err e, h)

  abbrev pub register : String → List String → Action (Handler W) Response
  register url urls h = registered url urls (on_world (sv.validate_url url) h)

  abbrev pub post_webhook : Fields → Action (Handler W) Response
  post_webhook fs =
      let url = text_of (member "url" fs) in
      if url == "" then pure (failure 400 "url (string) is required") else (do
        urls ← (λ h. dispatcher_of h.dispatcher h)
        if elem url urls then pure (url_list urls) else register url urls)

  abbrev pub attest_known : String → String → Option Json → Action (Handler W) Response
  attest_known id kind none = pure (failure 404 "unknown intent")
  attest_known id kind (some row) = do
    on_world (sv.attest id kind)
    pure (success (dict (("intent_id", text id) ∷ ("attested", text kind) ∷ [])))

  abbrev pub post_attest : Option String → Fields → Action (Handler W) Response
  post_attest none fs = pure (failure 404 "not found")
  post_attest (some id) fs =
      let kind = text_of (member "kind" fs) in
      if is_kind kind
      then (do row ← on_world (sv.status id); attest_known id kind row)
      else pure (failure 400 "kind must be one of ['Shipped', 'Failed']")

  abbrev pub route : String → Fields → Action (Handler W) Response
  route path fs =
      if path == "/v1/intents"
      then post_intent fs
      else if path == "/v1/webhooks"
      then post_webhook fs
      else post_attest (sv.attest_path path) fs

  abbrev pub with_body : Request → (Fields ⊎ BodyError) → Handler W → Response × Handler W
  with_body request (inr too_large) h = (failure 413 "body exceeds 1048576 byte limit", h)
  with_body request (inr (invalid message)) h = (failure 400 message, h)
  with_body request (inl fs) h = or_500 (route request.path fs h)

  unfoldable pub do_post : Request → Handler W → Response × Handler W
  unfolding body
  do_post request h =
      let (b, w) = body request h.world in with_body request b (record h { world = w })
