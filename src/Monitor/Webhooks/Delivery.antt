-- ===== src/Monitor/Webhooks/Delivery.antt =====
-- Which posts a dispatch makes, and that it returns.
use lumo.Base.{
  ℕ, ◌≡◌, refl, ◌∙◌, sym, true, not, List, [], ◌∷◌, ◌++◌, String, All, ok, err, Error, Bool-cases,
  Result-cases, zero, suc, inl, inr, subst, raise_if, or_raise, elem, webhook_url_error, other,
}
use lumo.Base.Stays.{Stays, IsPreorder, Stays-result, Stays-bind, Stays-raise_if, Stays-or_raise}
use lumo.Monitor.{Event}
use lumo.Monitor.Webhooks.{
  Lookup, Net, Sink, validate_url, check_infos, check_lookup, dispatch, deliver, attempts,
  is_non_public, given_host, given_port, gaierror, raised, infos, is_webhook_url_error, of_result,
}
use lumo.Monitor.Webhooks.Safe.{IsSafe, validate_url-IsSafe}

module _ {E : Type 0} where
  -- the world with a record of the URLs that were posted to, successfully or not
  abbrev pub traced_net : Net E → Net (E × List String)
  traced_net net = record {
    urlparse = net.urlparse;
    getaddrinfo = λ host port w.
        ((net.getaddrinfo host port w.0).0, ((net.getaddrinfo host port w.0).1, w.1));
    ip_address = net.ip_address;
  }

  abbrev pub traced_sink : Sink E → Sink (E × List String)
  traced_sink sink = record {
    post = λ url event w.
        ((sink.post url event w.0).0, ((sink.post url event w.0).1, w.1 ++ url ∷ []));
  }

-- The check of the URL passed in some state.
abbrev pub Checked : {E : Type 0} → Net E → String → Type 0
Checked {E} net url = (s : E) × IsSafe net url s

All-append :
    (P : String → Type 0) (as_ : List String) (u : String) → All P as_ → P u → All P (as_ ++ u ∷ [])
All-append P [] u h p = (p, tt)
All-append P (a ∷ as_) u (h, hs) p = (h, All-append P as_ u hs p)

module _ {E : Type 0} (net : Net E) where
  abbrev SameTrace : (E × List String) → (E × List String) → Type 0
  SameTrace w v = v.1 ≡ w.1

  same : IsPreorder SameTrace
  same = record { start = λ w. refl; chain = λ a b c f g. g ∙ f }

  check_infos-SameTrace : (as_ : List String) → Stays SameTrace (check_infos (traced_net net) as_)
  check_infos-SameTrace [] = Stays-result same (λ w. ok tt)
  check_infos-SameTrace (a ∷ rest) =
      Stays-bind same (of_result (net.ip_address a)) _ (Stays-result same (λ w. net.ip_address a))
        λ ip.
          Stays-bind same (raise_if (is_non_public ip) webhook_url_error) _
            (Stays-raise_if same (is_non_public ip) webhook_url_error)
            λ _. check_infos-SameTrace rest

  check_lookup-SameTrace : (l : Lookup) → Stays SameTrace (check_lookup (traced_net net) l)
  check_lookup-SameTrace gaierror = Stays-result same (λ w. err webhook_url_error)
  check_lookup-SameTrace raised = Stays-result same (λ w. err other)
  check_lookup-SameTrace (infos as_) = check_infos-SameTrace as_

  validate_url-SameTrace : (url : String) → Stays SameTrace (validate_url (traced_net net) url)
  unfolding validate_url
  validate_url-SameTrace url =
      Stays-bind same (of_result (net.urlparse url)) _ (Stays-result same (λ w. net.urlparse url))
        λ parsed.
          Stays-bind same
            (raise_if (not (elem parsed.scheme ("http" ∷ "https" ∷ []))) webhook_url_error) _
            (Stays-raise_if same (not (elem parsed.scheme ("http" ∷ "https" ∷ [])))
              webhook_url_error)
            λ _.
              Stays-bind same (or_raise (given_host parsed.hostname) webhook_url_error) _
                (Stays-or_raise same (given_host parsed.hostname) webhook_url_error)
                λ host.
                  Stays-bind same (of_result parsed.port) _ (Stays-result same (λ w. parsed.port))
                    λ port. record {
                      at_state = λ w.
                          (check_lookup-SameTrace
                              ((traced_net net).getaddrinfo host (given_port port) w).0).at_state
                            ((traced_net net).getaddrinfo host (given_port port) w).1;
                    }

  untraced :
      (url : String) (w : E × List String) → IsSafe (traced_net net) url w → IsSafe net url w.0
  untraced url w k = record {
    parsed = k.parsed;
    parses = k.parses;
    scheme = k.scheme;
    host = k.host;
    hostname = k.hostname;
    port = k.port;
    addresses = k.addresses;
    found = k.found;
    are_public = k.are_public;
  }

  -- every URL on record has been checked
  record IsClean (w : E × List String) : Type 0 where
    urls : All (Checked net) w.1

  deliver-IsClean :
      (n : ℕ) (sink : Sink E) (url : String) (event : Event) (w : E × List String)
      → Checked net url
      → IsClean w
      → IsClean (deliver n ((traced_sink sink).post url event) w)
  deliver-IsClean zero sink url event w c h = h
  deliver-IsClean (suc n) sink url event w c h =
      let v = ((traced_sink sink).post url event w).1 in
      let h' : IsClean v = record { urls = All-append (Checked net) w.1 url h.urls c } in
      elim (Result-cases (sink.post url event w.0).0) [
        | inl (a, e) ↦ rw (deliver, e) h'
        | inr (x, e) ↦ rw (deliver, e) (deliver-IsClean n sink url event v c h')
      ]

  dispatch-IsClean :
      (urls : List String) (sink : Sink E) (event : Event) (w : E × List String)
      → IsClean w
      → IsClean (dispatch (traced_net net) urls (traced_sink sink) event w).1
  unfolding dispatch
  dispatch-IsClean [] sink event w h = h
  dispatch-IsClean (url ∷ urls) sink event w h =
      let v = (validate_url (traced_net net) url w).1 in
      let hv : IsClean v = record {
        urls = subst (All (Checked net)) (sym ((validate_url-SameTrace url).at_state w)) h.urls;
      } in
      elim (Result-cases (validate_url (traced_net net) url w).0) [
        | inl (tt, e) ↦
            rw (dispatch, e)
              (dispatch-IsClean urls sink event
                (deliver attempts ((traced_sink sink).post url event) v)
                (deliver-IsClean attempts sink url event v
                  (w.0, untraced url w (validate_url-IsSafe (traced_net net) url w e)) hv))
        | inr (x, e) ↦ elim (Bool-cases (is_webhook_url_error x)) [
          | inl unsafe ↦ rw (dispatch, e, unsafe) (dispatch-IsClean urls sink event v hv)
          | inr worse ↦ rw (dispatch, e, worse) hv
        ]
      ]

  -- Start a dispatch with no post on record. Every URL that it posts to, successfully or not, has
  -- passed the check in some state: its scheme is http or https, its host is named, and no address
  -- that the host had was private, loopback, link-local, multicast, reserved or unspecified.
  pub dispatch-Checked :
      (urls : List String) (sink : Sink E) (event : Event) (s : E)
      → All (Checked net) (dispatch (traced_net net) urls (traced_sink sink) event (s, [])).1.1
  dispatch-Checked urls sink event s =
      (dispatch-IsClean urls sink event (s, []) (record { urls = tt })).urls

  -- If the check of a URL raises nothing but `WebhookURLError`, a dispatch returns, whatever the
  -- sink does.
  pub dispatch_returns :
      (urls : List String) (sink : Sink E) (event : Event) (s : E)
      → ((url : String) (t : E) (e : Error)
          → (validate_url net url t).0 ≡ err e
          → is_webhook_url_error e ≡ true)
      → (dispatch net urls sink event s).0 ≡ ok tt
  unfolding dispatch
  dispatch_returns [] sink event s only = refl
  dispatch_returns (url ∷ urls) sink event s only =
      let v = (validate_url net url s).1 in
      elim (Result-cases (validate_url net url s).0) [
        | inl (a, e) ↦
            rw (dispatch, e)
              (dispatch_returns urls sink event (deliver attempts (sink.post url event) v) only)
        | inr (x, e) ↦ rw (dispatch, e, only url s x e) (dispatch_returns urls sink event v only)
      ]
