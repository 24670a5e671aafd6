-- ===== src/Monitor/Webhooks.antt =====
-- lumo/monitor/webhooks.py: events are posted to configured URLs, which must lead to public hosts.
-- URL parsing, name resolution and IP addresses are Python's, the parameter `Net`. `E` is the
-- world outside: the DNS and what has been posted.
pub mod Safe
pub mod Delivery
pub mod Mock
use lumo.Base.{
  ℕ, ◌+◌, Bool, true, false, not, ◌&&◌, ◌||◌, Option, none, some, List, [], ◌∷◌, ◌++◌, String, ◌==◌,
  elem, Action, Result, ok, err, Error, webhook_url_error, other, pure, raise, raise_if, or_raise,
  ◌>>=◌, ◌>>◌, zero, suc, ltb, ◌-◌, if◌then◌else◌,
}
use lumo.Monitor.{Event, Subscriber}

-- `urlparse`; the port may be out of range.
pub record Url : Type 0 where
  pub scheme : String
  pub hostname : Option String
  pub port : Result (Option ℕ)

pub record Ip : Type 0 where
  pub is_private : Bool
  pub is_loopback : Bool
  pub is_link_local : Bool
  pub is_multicast : Bool
  pub is_reserved : Bool
  pub is_unspecified : Bool

-- `getaddrinfo`: `socket.gaierror`, another exception, or the addresses.
pub data Lookup : Type 0 where
  gaierror raised : Lookup
  infos : List String → Lookup

pub record Net (E : Type 0) : Type 0 where
  pub urlparse : String → Result Url
  pub getaddrinfo : String → Option ℕ → E → Lookup × E
  -- of the address before its scope, `.split("%")[0]`
  pub ip_address : String → Result Ip

-- `host` of which Python's `not host` is False
abbrev pub given_host : Option String → Option String
given_host none = none
given_host (some h) = if h == "" then none else some h

-- A port of 0 is as none, `parsed.port or None`.
abbrev pub given_port : Option ℕ → Option ℕ
given_port (some zero) = none
given_port o = o

abbrev pub is_non_public : Ip → Bool
is_non_public ip =
    ip.is_private || ip.is_loopback || ip.is_link_local || ip.is_multicast || ip.is_reserved
    || ip.is_unspecified

abbrev pub of_result : {S A : Type 0} → Result A → Action S A
of_result r s = (r, s)

module _ {E : Type 0} (net : Net E) where
  abbrev pub check_infos : List String → Action E (Unit {0})
  check_infos [] = pure tt
  check_infos (a ∷ rest) = do
    ip ← of_result (net.ip_address a)
    raise_if (is_non_public ip) webhook_url_error
    check_infos rest

  abbrev pub check_lookup : Lookup → Action E (Unit {0})
  check_lookup gaierror = raise webhook_url_error
  check_lookup raised = raise other
  check_lookup (infos addresses) = check_infos addresses

  abbrev pub resolve : String → Option ℕ → Action E (Unit {0})
  resolve host port s = let (found, s') = net.getaddrinfo host port s in check_lookup found s'

  unfoldable pub validate_url : String → Action E (Unit {0})
  validate_url url = do
    parsed ← of_result (net.urlparse url)
    raise_if (not (elem parsed.scheme ("http" ∷ "https" ∷ []))) webhook_url_error
    host ← or_raise (given_host parsed.hostname) webhook_url_error
    port ← of_result parsed.port
    resolve host (given_port port)

abbrev pub attempts : ℕ
attempts = 3

pub record Sink (E : Type 0) : Type 0 where
  pub post : String → Event → Action E (Unit {0})

pub record WebhookDispatcher (E : Type 0) : Type 0 where
  pub urls : List String
  pub sink : Sink E

-- `n` more attempts; the first that succeeds ends them.
abbrev pub deliver : {E : Type 0} → ℕ → Action E (Unit {0}) → E → E
deliver zero post s = s
deliver (suc n) post s =
    let again = deliver n post (post s).1 in elim (post s).0 [ ok _ ↦ (post s).1 | err _ ↦ again ]

abbrev pub is_webhook_url_error : Error → Bool
is_webhook_url_error webhook_url_error = true
is_webhook_url_error _ = false

module _ {E : Type 0} (net : Net E) where
  unfoldable pub register : String → WebhookDispatcher E → Action E (WebhookDispatcher E)
  register url d = do validate_url net url; pure (record d { urls = d.urls ++ url ∷ [] })

  -- the URLs in turn; an unsafe one is passed over
  unfoldable pub dispatch : List String → Sink E → Subscriber E
  dispatch [] sink event s = (ok tt, s)
  dispatch (url ∷ urls) sink event s =
      let sent =
        dispatch urls sink event
          (deliver attempts (sink.post url event) (validate_url net url s).1) in
      let skipped = dispatch urls sink event (validate_url net url s).1 in
      elim (validate_url net url s).0 [
        | ok _ ↦ sent
        | err e ↦ if is_webhook_url_error e then skipped else (err e, (validate_url net url s).1)
      ]

  abbrev pub validate_all : List String → Action E (Unit {0})
  validate_all [] = pure tt
  validate_all (url ∷ urls) = do validate_url net url; validate_all urls

  abbrev pub webhooks_for : List String → Sink E → Action E (Option (WebhookDispatcher E))
  webhooks_for [] sink = pure none
  webhooks_for (url ∷ urls) sink = do
    validate_all (url ∷ urls)
    pure (some (record { urls = url ∷ urls; sink = sink }))

  -- `split_names` splits at the commas, strips each part and drops the empty ones.
  unfoldable pub build_webhooks :
      (String → List String) → String → Sink E → Action E (Option (WebhookDispatcher E))
  build_webhooks split_names webhook_urls sink = webhooks_for (split_names webhook_urls) sink

-- `MockSink`, an object of its own: its state is the world.
pub record MockSink : Type 0 where
  pub fail_times : ℕ
  pub attempts : ℕ
  pub deliveries : List (String × Event)

unfoldable pub mock_post : String → Event → Action MockSink (Unit {0})
mock_post url event s =
    if ltb 0 s.fail_times
    then (err other, record s { attempts = s.attempts + 1; fail_times = s.fail_times - 1 })
    else (
      ok tt,
      record s { attempts = s.attempts + 1; deliveries = s.deliveries ++ (url, event) ∷ [] },
    )
