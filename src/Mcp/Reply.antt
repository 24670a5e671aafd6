-- ===== src/Mcp/Reply.antt =====
-- Which requests the server answers, and how.
use lumo.Base.{
  ℤ, ◌≡◌, ◌⊎◌, refl, subst, ap, Bool, true, false, not, Option, none, some, [], String,
  if◌then◌else◌, elem, or_default, Result, ok, err, other, Bool-cases, inl, inr, arith, pure,
  eq_iff, bind_result,
}
use lumo.Json.{
  Json, null, boolean, number, decimal, text, array, object, Fields, member, dict, is_hashable,
  is_null, is_text,
}
use lumo.Mcp.{
  Client, Show, handle, handle_id, answer, call, named_tool, run_tool, tool_reply, unknown_tool,
  call_tool, get, reply, tool_names, tools, server_info, content,
}

-- The response is to that request, with a result or with an error.
pub data IsResponse (id : Json) : Json → Type 0 where
  result : (r : Json) → IsResponse id (reply id r)
  error : (code : ℤ) (message : String) → IsResponse id (lumo.Mcp.error id code message)

abbrev pub is_unhashable_name : Json → Bool
is_unhashable_name (object params) = not (is_hashable (get "name" params))
is_unhashable_name _ = false

-- No object, or a call of a tool whose name is an array or an object.
abbrev pub is_malformed : Json → Bool
is_malformed (object request) =
    if is_null (get "id" request)
    then false
    else if is_text "tools/call" (or_default (member "method" request) (text ""))
    then is_unhashable_name (or_default (member "params" request) (dict []))
    else false
is_malformed _ = true

abbrev pub id_of : Json → Json
id_of (object request) = get "id" request
id_of _ = null

-- What becomes of a request: it raises, it is a notification, or it gets one response.
pub data Outcome (id : Json) (malformed : Bool) : Result (Option Json) → Type 0 where
  raises : malformed ≡ true → Outcome id malformed (err other)
  silent : malformed ≡ false → is_null id ≡ true → Outcome id malformed (ok none)
  answers : malformed ≡ false → (j : Json) → IsResponse id j → Outcome id malformed (ok (some j))

is_text_eq : (s : String) (m : Json) → is_text s m ≡ true → m ≡ text s
is_text_eq s (text t) h = ap text ((eq_iff t s).0 h)
is_text_eq s null h = ground arith
is_text_eq s (boolean b) h = ground arith
is_text_eq s (number n) h = ground arith
is_text_eq s (decimal d) h = ground arith
is_text_eq s (array vs) h = ground arith
is_text_eq s (object fs) h = ground arith

module _ {S : Type 0} (sh : Show) (client : Client S) where
  -- the answer to a request with that id, which is or is not malformed
  abbrev Answer : Json → Bool → Result Json → Type 0
  Answer id malformed r =
      ((malformed ≡ true) × (r ≡ err other))
      ⊎ ((malformed ≡ false) × ((j : Json) × (r ≡ ok j) × IsResponse id j))

  tool_reply-IsResponse :
      (id : Json) (r : Result (Option Json)) → IsResponse id (tool_reply sh client id r)
  tool_reply-IsResponse id (err e) = result _
  tool_reply-IsResponse id (ok none) = result _
  tool_reply-IsResponse id (ok (some x)) = result _

  run_tool-Answer :
      (id : Json) (name : String) (arguments : Json) (s : S)
      → Answer id false (run_tool sh client id name arguments s).0
  run_tool-Answer id name (object arguments) s =
      inr (refl, (_, refl, tool_reply-IsResponse id (call_tool sh client name arguments s).0))
  run_tool-Answer id name null s = inr (refl, (_, refl, result _))
  run_tool-Answer id name (boolean b) s = inr (refl, (_, refl, result _))
  run_tool-Answer id name (number n) s = inr (refl, (_, refl, result _))
  run_tool-Answer id name (decimal d) s = inr (refl, (_, refl, result _))
  run_tool-Answer id name (text t) s = inr (refl, (_, refl, result _))
  run_tool-Answer id name (array vs) s = inr (refl, (_, refl, result _))

  named_tool-Answer :
      (id name : Json) (params : Fields) (s : S)
      → Answer id (not (is_hashable name)) (named_tool sh client id name params s).0
  named_tool-Answer id (text name) params s = elim (Bool-cases (elem name tool_names)) [
    | inl known ↦
        rw known (run_tool-Answer id name (or_default (member "arguments" params) (dict [])) s)
    | inr unknown ↦ rw unknown (inr (refl, (_, refl, error _ _)))
  ]
  named_tool-Answer id null params s = inr (refl, (_, refl, error _ _))
  named_tool-Answer id (boolean b) params s = inr (refl, (_, refl, error _ _))
  named_tool-Answer id (number n) params s = inr (refl, (_, refl, error _ _))
  named_tool-Answer id (decimal d) params s = inr (refl, (_, refl, error _ _))
  named_tool-Answer id (array vs) params s = inl (refl, refl)
  named_tool-Answer id (object fs) params s = inl (refl, refl)

  call-Answer :
      (id params : Json) (s : S)
      → Answer id (is_unhashable_name params) (call sh client id params s).0
  call-Answer id (object params) s = named_tool-Answer id (get "name" params) params s
  call-Answer id null s = inr (refl, (_, refl, error _ _))
  call-Answer id (boolean b) s = inr (refl, (_, refl, error _ _))
  call-Answer id (number n) s = inr (refl, (_, refl, error _ _))
  call-Answer id (decimal d) s = inr (refl, (_, refl, error _ _))
  call-Answer id (text t) s = inr (refl, (_, refl, error _ _))
  call-Answer id (array vs) s = inr (refl, (_, refl, error _ _))

  abbrev method_of : Fields → Json
  method_of request = or_default (member "method" request) (text "")

  answer-Answer :
      (id m : Json) (request : Fields) (s : S)
      → Answer id
          (if is_text "tools/call" m
            then is_unhashable_name (or_default (member "params" request) (dict []))
            else false)
          (answer sh client id m request s).0
  answer-Answer id m request s = elim (Bool-cases (is_text "initialize" m)) [
    | inl a ↦ rw (is_text_eq "initialize" m a) (inr (refl, (_, refl, result _)))
    | inr a ↦ elim (Bool-cases (is_text "tools/list" m)) [
      | inl b ↦ rw (is_text_eq "tools/list" m b) (inr (refl, (_, refl, result _)))
      | inr b ↦ elim (Bool-cases (is_text "tools/call" m)) [
        | inl c ↦ rw (a, b, c) (call-Answer id (or_default (member "params" request) (dict [])) s)
        | inr c ↦ rw (a, b, c) (inr (refl, (_, refl, error _ _)))
      ]
    ]
  ]

  responded :
      (id : Json) (bad : Bool) (c : Result Json × S)
      → Answer id bad c.0
      → Outcome id bad (bind_result c.0 c.1 (λ r. pure (some r))).0
  responded id bad (ok r, s) (inl (e, raised)) = absurd (ground arith)
  responded id bad (ok r, s) (inr (e, (j, same, is))) =
      answers e r (subst (IsResponse id) (let x : j ≡ r = ground arith in x) is)
  responded id bad (err x, s) (inl (e, raised)) =
      (let y : x ≡ other = ground arith in rw y (raises e))
  responded id bad (err x, s) (inr (e, (j, same, is))) = absurd (ground arith)

  -- A request that is no object makes the handler raise, and so does a call of a tool whose name
  -- is an array or an object. Any other request without an id, or with the id null, gets no
  -- response, and any other with an id gets one response, which carries the id and is a result or
  -- an error, whatever the tools do.
  pub handle-Outcome :
      (request : Json) (s : S)
      → Outcome (id_of request) (is_malformed request) (handle sh client request s).0
  unfolding handle
  handle-Outcome (object request) s = elim (Bool-cases (is_null (get "id" request))) [
    | inl e ↦ rw e (silent refl e)
    | inr e ↦ rw e (
        responded (get "id" request) _
          (answer sh client (get "id" request) (method_of request) request s)
          (answer-Answer (get "id" request) (method_of request) request s))
  ]
  handle-Outcome null s = raises refl
  handle-Outcome (boolean b) s = raises refl
  handle-Outcome (number n) s = raises refl
  handle-Outcome (decimal d) s = raises refl
  handle-Outcome (text t) s = raises refl
  handle-Outcome (array vs) s = raises refl
