-- ===== src/Mcp.antt =====
-- lumo/mcp.py: the tool server that reads one JSON request a line. `S` is the state of the client.
pub mod Reply
pub mod Serve
use lumo.Base.{
  ℤ, pos, negsuc, Bool, true, false, not, Option, none, some, List, [], ◌∷◌, ◌++◌, map, String,
  ◌==◌, if◌then◌else◌, elem, any, or_default, Action, Result, ok, err, Error, other, value_error,
  pure, raise, raise_if, or_raise, ◌>>=◌, ◌>>◌,
}
use lumo.Json.{
  Json, null, boolean, number, text, object, Fields, no_fields, member, dict, list, is_hashable,
  is_null, is_text,
}

-- `LumoClient`, with what it returns as the JSON that the tools make of it.
pub record Client (S : Type 0) : Type 0 where
  pub propose : String → Action S Json
  pub status : String → Action S (Option Json)
  pub attest : String → String → Action S (Unit {0})

-- Python's `repr`, `json.dumps` and `str` of an exception.
pub record Show : Type 0 where
  pub repr : Json → String
  pub dumps : Json → String
  pub message : Error → String
  pub concat : String → String → String

abbrev pub described : String → Json
described d = dict (("type", text "string") ∷ ("description", text d) ∷ [])

abbrev pub tool : String → String → List (String × Json) → List String → Json
tool name description properties required = dict (
    ("name", text name)
    ∷ ("description", text description)
    ∷ (
      "inputSchema",
      dict (
          ("type", text "object")
          ∷ ("properties", dict properties)
          ∷ ("required", list (map text required))
          ∷ []),
    )
    ∷ [])

abbrev pub tool_names : List String
tool_names = "lumo.propose_payment" ∷ "lumo.get_status" ∷ "lumo.attest" ∷ []

-- TOOLS
abbrev pub tools : List Json
tools =
    tool "lumo.propose_payment"
      "Run an invoice through Lumo's guard chain (injection scan, policy engine, caps). Returns a decision: proposed, held, or refused, with reason codes. Money can only move to registered suppliers within caps."
      (("invoice_text", described "Raw invoice text to evaluate") ∷ []) ("invoice_text" ∷ [])
    ∷ tool "lumo.get_status" "Fetch the current status of a payment intent by id."
        (("intent_id", described "Intent id returned by lumo.propose_payment") ∷ [])
        ("intent_id" ∷ [])
    ∷ tool "lumo.attest"
        "Record an oracle attestation (Shipped or Failed) for a payment intent. Shipped gates release to the supplier; Failed gates refund to the SME."
        (("intent_id", described "Intent id to attest")
          ∷ (
            "kind",
            dict (
                ("type", text "string")
                ∷ ("enum", list (text "Shipped" ∷ text "Failed" ∷ []))
                ∷ ("description", text "Attestation kind")
                ∷ []),
          )
          ∷ [])
        ("intent_id" ∷ "kind" ∷ [])
    ∷ []

abbrev pub text_of : Option Json → Option String
text_of (some (text s)) = some s
text_of _ = none

-- `dict.get(key)` with None for a missing key
abbrev pub get : String → Fields → Json
get key fs = or_default (member key fs) null

abbrev pub content : String → Bool → Json
content s is_error = dict (
    ("content", list (dict (("type", text "text") ∷ ("text", text s) ∷ []) ∷ []))
    ∷ ("isError", boolean is_error)
    ∷ [])

abbrev pub reply : Json → Json → Json
reply id result = dict (("jsonrpc", text "2.0") ∷ ("id", id) ∷ ("result", result) ∷ [])

abbrev pub error : Json → ℤ → String → Json
error id code message = dict (
    ("jsonrpc", text "2.0")
    ∷ ("id", id)
    ∷ ("error", dict (("code", number code) ∷ ("message", text message) ∷ []))
    ∷ [])

abbrev pub server_info : Json
server_info = dict (
    ("protocolVersion", text "2024-11-05")
    ∷ ("capabilities", dict (("tools", dict []) ∷ []))
    ∷ ("serverInfo", dict (("name", text "lumo") ∷ ("version", text "0.1.0") ∷ []))
    ∷ [])

abbrev pub written : Option Json → List Json
written none = []
written (some response) = response ∷ []

abbrev pub written_for : Result (Option Json) → List Json
written_for (ok response) = written response
written_for (err e) = []

module _ {S : Type 0} (sh : Show) (client : Client S) where
  unfoldable pub str_arg : Fields → String → Action S String
  str_arg arguments key = or_raise (text_of (member key arguments)) value_error

  unfoldable pub call_tool : String → Fields → Action S (Option Json)
  unfolding str_arg
  call_tool name arguments =
      if name == "lumo.propose_payment"
      then (do
        invoice ← str_arg arguments "invoice_text"
        result ← client.propose invoice
        pure (some result))
      else if name == "lumo.get_status"
      then (do id ← str_arg arguments "intent_id"; client.status id)
      else if name == "lumo.attest"
      then (do
        id ← str_arg arguments "intent_id"
        kind ← str_arg arguments "kind"
        client.attest id kind
        pure (some (dict (("intent_id", text id) ∷ ("attested", text kind) ∷ []))))
      else pure none

  -- the `try` around the tool, and what follows it
  abbrev pub tool_reply : Json → Result (Option Json) → Json
  tool_reply id (err e) = reply id (content (sh.message e) true)
  tool_reply id (ok none) = reply id (content "unknown intent" true)
  tool_reply id (ok (some result)) = reply id (content (sh.dumps result) false)

  abbrev pub run_tool : Json → String → Json → Action S Json
  run_tool id name (object arguments) s =
      let (r, s') = call_tool name arguments s in (ok (tool_reply id r), s')
  run_tool id name _ s = (ok (reply id (content "arguments must be an object" true)), s)

  abbrev pub unknown_tool : Json → Json → Json
  unknown_tool id name = error id (negsuc 32601) (sh.concat "unknown tool " (sh.repr name))

  -- `name not in {…}` raises for a value without a hash.
  abbrev pub named_tool : Json → Json → Fields → Action S Json
  named_tool id (text name) params =
      if elem name tool_names
      then run_tool id name (or_default (member "arguments" params) (dict []))
      else pure (unknown_tool id (text name))
  named_tool id name params = if is_hashable name then pure (unknown_tool id name) else raise other

  abbrev pub call : Json → Json → Action S Json
  call id (object params) = named_tool id (get "name" params) params
  call id _ = pure (error id (negsuc 32601) "params must be an object")

  abbrev pub answer : Json → Json → Fields → Action S Json
  answer id method request =
      if is_text "initialize" method
      then pure (reply id server_info)
      else if is_text "tools/list" method
      then pure (reply id (dict (("tools", list tools) ∷ [])))
      else if is_text "tools/call" method
      then call id (or_default (member "params" request) (dict []))
      else pure
          (error id (negsuc 32600) (sh.concat "method " (sh.concat (sh.repr method) " not found")))

  abbrev pub handle_id : Json → Fields → Action S (Option Json)
  handle_id id request = if is_null id then pure none else (do
    response ← answer id (or_default (member "method" request) (text "")) request
    pure (some response))

  -- A request that is no object has no `get`.
  unfoldable pub handle : Json → Action S (Option Json)
  unfolding call_tool
  handle (object request) = handle_id (get "id" request) request
  handle _ = raise other

  -- The lines of the input that are not blank, each as `json.loads` reads it (none if it cannot),
  -- with the responses written so far.
  unfoldable pub serve : List (Option Json) → Action (S × List Json) (Unit {0})
  serve [] w = (ok tt, w)
  serve (none ∷ lines) w = serve lines w
  serve (some request ∷ lines) w =
      let rest = serve lines ((handle request w.0).1, w.1 ++ written_for (handle request w.0).0) in
      elim (handle request w.0).0 [ ok _ ↦ rest | err e ↦ (err e, ((handle request w.0).1, w.1)) ]
