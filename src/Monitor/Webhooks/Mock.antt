-- ===== src/Monitor/Webhooks/Mock.antt =====
-- A sink that fails a few times still gets every event.
use lumo.Base.{
  ◌≤◌, ◌≡◌, refl, ◌∙◌, sym, ap, List, [], ◌∷◌, ◌++◌, map, String, All, ok, arith, append_assoc,
  append-nil,
}
use lumo.Monitor.{Event}
use lumo.Monitor.Webhooks.{
  Net, Sink, validate_url, dispatch, deliver, attempts, MockSink, mock_post,
}

abbrev pub mock_sink : Sink MockSink
mock_sink = record { post = mock_post }

module _ (net : Net MockSink) (event : Event) where
  abbrev pub sent : List String → List (String × Event)
  sent urls = map (λ u. (u, event)) urls

  -- the sink after the delivery to one URL
  abbrev after : String → MockSink → MockSink
  after url s = deliver attempts (mock_post url event) s

  delivers_one :
      (url : String) (s : MockSink)
      → s.fail_times ≤ 2
      → ((after url s).fail_times ≤ 2)
        × ((after url s).deliveries ≡ s.deliveries ++ (url, event) ∷ [])
  unfolding mock_post
  delivers_one url s h = ground arith

  -- Let the check of each of the URLs pass and touch nothing. If a `MockSink` has at most two
  -- failures left, a dispatch to the URLs returns, and the sink then has the event once more for
  -- each URL, in their order.
  pub dispatch-delivers :
      (urls : List String) (s : MockSink)
      → All (λ url. (t : MockSink) → validate_url net url t ≡ (ok tt, t)) urls
      → s.fail_times ≤ 2
      → ((dispatch net urls mock_sink event s).0 ≡ ok tt)
        × ((dispatch net urls mock_sink event s).1.deliveries ≡ s.deliveries ++ sent urls)
  unfolding dispatch
  dispatch-delivers [] s valid h = (refl, sym (append-nil s.deliveries))
  dispatch-delivers (url ∷ urls) s (valid, more) h =
      let (h', got) = delivers_one url s h in
      let (returns, rest) = dispatch-delivers urls (after url s) more h' in
      let passes : (validate_url net url s).0 ≡ ok tt = ap (λ q. q.0) (valid s) in
      let quiet : (validate_url net url s).1 ≡ s = ap (λ q. q.1) (valid s) in
      (
        rw (dispatch, passes, quiet) returns,
        rw (dispatch, passes, quiet)
            (rest
              ∙ ap (λ d. d ++ sent urls) got
              ∙ append_assoc s.deliveries ((url, event) ∷ []) (sent urls)),
      )
