-- ===== src/Tests/Monitor.antt =====
-- Ids, metrics and webhooks.
use lumo.Base.{
  ℕ, ◌≡◌, refl, true, false, none, some, [], ◌∷◌, ◌++◌, String, ok, err, All, arith, Error, other,
  if◌then◌else◌, nat_eq, ◌==◌, webhook_url_error,
}
use lumo.Monitor.{Event}
use lumo.Monitor.Metrics.{Counters, count_event, no_counts, snapshot}
use lumo.Monitor.Metrics.Live.{record_all, counters-snapshot}
use lumo.Monitor.Webhooks.{
  Ip, Net, Sink, MockSink, validate_url, dispatch, infos, gaierror, is_webhook_url_error,
}
use lumo.Monitor.Webhooks.Delivery.{
  Checked, traced_net, traced_sink, dispatch-Checked, dispatch_returns,
}
use lumo.Monitor.Webhooks.Mock.{mock_sink, dispatch-delivers, sent}
use lumo.Db.Rows.{DecisionName}
use lumo.Db.Repo.{Repo}
use lumo.Db.Decide.{Decision}
use lumo.Db.Ulid
use lumo.Db.Ulid.RoundTrip.{timestamp_ms-new}
use lumo.Tests.Data.{row, tables, signed}

timestamp_ms-new_example :
    lumo.Db.Ulid.timestamp_ms (lumo.Db.Ulid.new 1700000000000 12345) ≡ ok 1700000000000
timestamp_ms-new_example = timestamp_ms-new 1700000000000 12345 (ground arith) (ground arith)

abbrev watched : Repo Counters
watched = record {
  db = tables (row ∷ []) signed;
  bus = record { enabled = true; subscribers = count_event ∷ []; recent = []; env = no_counts };
  now = 0;
  ids = λ n.
      if nat_eq n 0 then "D1" else if nat_eq n 1 then "X1" else if nat_eq n 2 then "D2" else "X2";
  minted = 0;
}

abbrev refusal : Decision
refusal = record {
  decision = DecisionName.refused;
  codes = "UNKNOWN_SUPPLIER" ∷ [];
  request_hash = "H1";
  intent = none;
  intent_id = none;
  detail = none;
}

counters-snapshot_example :
    (record_all (refusal ∷ refusal ∷ []) watched).bus.env
    ≡ (snapshot (record_all (refusal ∷ refusal ∷ []) watched).db).counters
unfolding snapshot
counters-snapshot_example = counters-snapshot (refusal ∷ refusal ∷ []) watched refl refl refl

abbrev is_local : String → Ip
is_local a = record {
  is_private = a == "10.0.0.1";
  is_loopback = false;
  is_link_local = false;
  is_multicast = false;
  is_reserved = false;
  is_unspecified = false;
}

-- every URL is a host name
abbrev net : {E : Type 0} → Net E
net = record {
  urlparse = λ url. ok (record { scheme = "https"; hostname = some url; port = ok none });
  getaddrinfo = λ host port s.
      (if host == "inner" then infos ("10.0.0.1" ∷ []) else infos ("93.184.215.14" ∷ []), s);
  ip_address = λ a. ok (is_local a);
}

abbrev event : Event
event = record { name = "intent.held"; payload = [] }

abbrev counting : Sink ℕ
counting = record { post = λ url e n. (err other, n) }

dispatch-Checked_example :
    All
      (Checked (net {E = ℕ}))
      (dispatch (traced_net net) ("inner" ∷ "a.org" ∷ []) (traced_sink counting) event (0, [])).1.1
dispatch-Checked_example = dispatch-Checked net ("inner" ∷ "a.org" ∷ []) counting event 0

-- the host does not resolve
abbrev lost : Net ℕ
lost = record {
  urlparse = λ url. ok (record { scheme = "https"; hostname = some "x"; port = ok none });
  getaddrinfo = λ host port s. (gaierror, s);
  ip_address = λ a. ok (is_local a);
}

lost_only :
    (url : String) (t : ℕ) (e : Error)
    → (validate_url lost url t).0 ≡ err e
    → is_webhook_url_error e ≡ true
unfolding validate_url
lost_only url t e h = let same : webhook_url_error ≡ e = ground arith in rw (← same) refl

dispatch_returns_example : (dispatch lost ("a.org" ∷ []) counting event 0).0 ≡ ok tt
dispatch_returns_example = dispatch_returns lost ("a.org" ∷ []) counting event 0 lost_only

abbrev shaky : MockSink
shaky = record { fail_times = 2; attempts = 0; deliveries = [] }

abbrev here : Net MockSink
here = record {
  urlparse = λ url. ok (record { scheme = "https"; hostname = some "x"; port = ok none });
  getaddrinfo = λ host port s. (infos [], s);
  ip_address = λ a. ok (is_local a);
}

here_valid : (url : String) (t : MockSink) → validate_url here url t ≡ (ok tt, t)
unfolding validate_url
here_valid url t = refl

dispatch-delivers_example :
    ((dispatch here ("a.org" ∷ "b.org" ∷ []) mock_sink event shaky).0 ≡ ok tt)
    × ((dispatch here ("a.org" ∷ "b.org" ∷ []) mock_sink event shaky).1.deliveries
        ≡ [] ++ sent here event ("a.org" ∷ "b.org" ∷ []))
dispatch-delivers_example =
    dispatch-delivers here event ("a.org" ∷ "b.org" ∷ []) shaky
      (here_valid "a.org", (here_valid "b.org", tt)) (ground arith)
