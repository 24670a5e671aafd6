-- ===== src/Api/Urls.antt =====
-- Which webhook URLs the API has registered.
use lumo.Base.{
  ◌≡◌, refl, subst, ap, false, Option, none, some, List, [], ◌∷◌, String, ◌==◌, if◌then◌else◌, elem,
  Action, Result, ok, err, Bool-cases, inl, inr, ◌⊎◌, arith, pure, ◌>>=◌, Result-cases,
}
use lumo.Base.Stays.{Stays, IsPreorder, Stays-result, Stays-bind, Stays-if}
use lumo.Json.{Json, Fields, member}
use lumo.Monitor.Webhooks.{is_webhook_url_error}
use lumo.Api.Document.{openapi}
use lumo.Api.{
  Request, Response, Services, Handler, BodyError, too_large, invalid, do_get, do_post, body,
  with_body, or_500, route, post_intent, post_webhook, post_attest, attest_known, dispatcher_of,
  register, url_list, get_intent, on_world, text_of, success, failure, is_kind, found,
}
use lumo.Api.Sound.{urls_of, IsSound, IsSound-append}

module _ {W : Type 0} (sv : Services W) where
  -- the URLs of the dispatcher stay sound
  abbrev StaysSound : Handler W → Handler W → Type 0
  StaysSound h k = IsSound sv (urls_of h.dispatcher) → IsSound sv (urls_of k.dispatcher)

  pre : IsPreorder StaysSound
  pre = record { start = λ h o. o; chain = λ a b c f g o. g (f o) }

  on_world-Stays : {A : Type 0} (m : Action W A) → Stays StaysSound (on_world sv m)
  on_world-Stays m = record { at_state = λ h o. o }

  same : (r : Response) → Stays StaysSound (pure r)
  same r = Stays-result pre (λ h. ok r)

  get_intent-Stays : (o : Option String) → Stays StaysSound (get_intent sv o)
  get_intent-Stays none = same (failure 404 "not found")
  get_intent-Stays (some id) =
      Stays-bind pre (on_world sv (sv.status id)) _ (on_world-Stays (sv.status id))
        λ row. same (found sv row)

  do_get-Stays : (request : Request) → Stays StaysSound (do_get sv request)
  unfolding do_get
  do_get-Stays request =
      Stays-if pre (request.path == "/v1/metrics") _ _
        (Stays-bind pre (on_world sv sv.metrics) _ (on_world-Stays sv.metrics)
          λ snapshot. same (success snapshot))
        (Stays-if pre (request.path == "/v1/openapi.json") _ _
          (same (success (openapi sv.result_schema)))
          (get_intent-Stays (sv.intent_path request.path)))

  post_intent-Stays : (fs : Fields) → Stays StaysSound (post_intent sv fs)
  post_intent-Stays fs =
      let invoice = text_of (member "invoice" fs) in
      Stays-if pre (invoice == "") _ _ (same (failure 400 "invoice (string) is required")) (
        Stays-bind pre (on_world sv (sv.propose invoice)) _ (on_world-Stays (sv.propose invoice))
          λ decision. same (success decision))

  attest_known-Stays :
      (id kind : String) (row : Option Json) → Stays StaysSound (attest_known sv id kind row)
  attest_known-Stays id kind none = same (failure 404 "unknown intent")
  attest_known-Stays id kind (some row) =
      Stays-bind pre (on_world sv (sv.attest id kind)) _ (on_world-Stays (sv.attest id kind))
        λ _. same _

  post_attest-Stays : (o : Option String) (fs : Fields) → Stays StaysSound (post_attest sv o fs)
  post_attest-Stays none fs = same (failure 404 "not found")
  post_attest-Stays (some id) fs =
      let kind = text_of (member "kind" fs) in
      Stays-if pre (is_kind kind) _ _
        (Stays-bind pre (on_world sv (sv.status id)) _ (on_world-Stays (sv.status id))
          λ row. attest_known-Stays id kind row)
        (same (failure 400 "kind must be one of ['Shipped', 'Failed']"))

  register-Stays :
      (url : String) (urls : List String) (h : Handler W)
      → elem url urls ≡ false
      → urls_of h.dispatcher ≡ urls
      → StaysSound h (register sv url urls h).1
  register-Stays url urls h new e o = elim (Result-cases (sv.validate_url url h.world).0) [
    | inl (tt, passes) ↦
        rw passes (IsSound-append sv urls url new (h.world, passes) (subst (IsSound sv) e o))
    | inr (x, fails) ↦ elim (Bool-cases (is_webhook_url_error x)) [
      | inl unsafe ↦ rw (fails, unsafe) o
      | inr worse ↦ rw (fails, worse) o
    ]
  ]

  -- the request with the dispatcher at hand
  abbrev add_url : String → List String → Action (Handler W) Response
  add_url url urls = if elem url urls then pure (url_list sv urls) else register sv url urls

  add_url-IsSound :
      (url : String) (urls : List String) (h : Handler W)
      → urls_of h.dispatcher ≡ urls
      → IsSound sv urls
      → IsSound sv (urls_of (add_url url urls h).1.dispatcher)
  add_url-IsSound url urls h e o =
      let o' : IsSound sv (urls_of h.dispatcher) = rw e o in
      elim (Bool-cases (elem url urls)) [
        | inl old ↦ rw old o'
        | inr new ↦ rw new (register-Stays url urls h new e o')
      ]

  after_dispatcher :
      (url : String) (d : Option (List String)) (h : Handler W)
      → h.dispatcher ≡ d
      → IsSound sv (urls_of d)
      → IsSound sv (urls_of ((dispatcher_of sv d >>= add_url url) h).1.dispatcher)
  after_dispatcher url (some urls) h e o = add_url-IsSound url urls h (ap urls_of e) o
  after_dispatcher url none h e o =
      let fresh : Handler W = record h { dispatcher = some [] } in
      elim (Result-cases (sv.subscribe h.world).0) [
        | inl (tt, joined) ↦
            rw joined
              (add_url-IsSound url [] (record fresh { world = (sv.subscribe h.world).1 }) refl o)
        | inr (x, raised) ↦ rw raised o
      ]

  post_webhook-Stays : (fs : Fields) → Stays StaysSound (post_webhook sv fs)
  post_webhook-Stays fs =
      let url = text_of (member "url" fs) in
      Stays-if pre (url == "") _ _ (same (failure 400 "url (string) is required"))
        (record { at_state = λ h o. after_dispatcher url h.dispatcher h refl o })

  route-Stays : (path : String) (fs : Fields) → Stays StaysSound (route sv path fs)
  route-Stays path fs = Stays-if pre (path == "/v1/intents") _ _ (post_intent-Stays fs) (
      Stays-if pre (path == "/v1/webhooks") _ _ (post_webhook-Stays fs)
        (post_attest-Stays (sv.attest_path path) fs))

  or_500-state : (c : Result Response × Handler W) → (or_500 c).1 ≡ c.1
  or_500-state (ok r, h) = refl
  or_500-state (err e, h) = refl

  with_body-StaysSound :
      (request : Request) (b : Fields ⊎ BodyError) (h : Handler W)
      → StaysSound h (with_body sv request b h).1
  with_body-StaysSound request (inr too_large) h o = o
  with_body-StaysSound request (inr (invalid message)) h o = o
  with_body-StaysSound request (inl fs) h o =
      rw (or_500-state (route sv request.path fs h)) ((route-Stays request.path fs).at_state h o)

  do_post-StaysSound : (request : Request) (h : Handler W) → StaysSound h (do_post sv request h).1
  unfolding do_post
  do_post-StaysSound request h =
      with_body-StaysSound request (body sv request h.world).0
        (record h { world = (body sv request h.world).1 })

pub data Call : Type 0 where
  get post : Request → Call

module _ {W : Type 0} (sv : Services W) where
  -- Requests one after another.
  unfoldable pub run_requests : List Call → Handler W → Handler W
  run_requests [] h = h
  run_requests (get request ∷ cs) h = run_requests cs (do_get sv request h).1
  run_requests (post request ∷ cs) h = run_requests cs (do_post sv request h).1

  run_requests-IsSound :
      (cs : List Call) (h : Handler W)
      → IsSound sv (urls_of h.dispatcher)
      → IsSound sv (urls_of (run_requests cs h).dispatcher)
  unfolding run_requests
  run_requests-IsSound [] h o = o
  run_requests-IsSound (get request ∷ cs) h o =
      run_requests-IsSound cs (do_get sv request h).1 ((do_get-Stays sv request).at_state h o)
  run_requests-IsSound (post request ∷ cs) h o =
      run_requests-IsSound cs (do_post sv request h).1 (do_post-StaysSound sv request h o)

  -- Start with no dispatcher. After any list of GET and POST requests, one after another, every
  -- URL that is registered has passed the check of webhook URLs in some state, and none is
  -- registered twice.
  pub registered-IsSound :
      (cs : List Call) (w : W)
      → IsSound sv (urls_of (run_requests cs (record { dispatcher = none; world = w })).dispatcher)
  registered-IsSound cs w =
      run_requests-IsSound cs (record { dispatcher = none; world = w })
        (record { passed = tt; once = λ url. omega arith })
