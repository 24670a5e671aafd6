-- ===== src/Tests/Api.antt =====
-- The tool server, the HTTP API, the user interface and the migrations.
use lumo.Base.{
  ℕ, pos, ◌+◌, ◌≡◌, ◌⊎◌, refl, inl, none, some, List, [], ◌∷◌, ◌++◌, String, ok, err, Action, other,
}
use lumo.Json.{Json, null, text, number, dict}
use lumo.Mcp.{Client, Show, handle, serve}
use lumo.Mcp.Reply.{Outcome, id_of, is_malformed, handle-Outcome}
use lumo.Mcp.Serve.{Served, serve-Served}
use lumo.Api.{Services, Request, body, do_post}
use lumo.Api.Sound.{IsSound, urls_of}
use lumo.Api.Urls.{post, run_requests, registered-IsSound}
use lumo.Api.Bodies.{ReadsAtMost, traced_services, body-bounded, do_post-refused}
use lumo.Config.{Config, defaults, strict, with_trust, profile, post_init}
use lumo.Ui.{trust_profile}
use lumo.Ui.Profile.{trust_profile-profile}
use lumo.Migrate.{Database, up, applied}
use lumo.Migrate.Up.{pending, up_lem}

abbrev sh : Show
sh = record { repr = λ j. "?"; dumps = λ j. "{}"; message = λ e. "error"; concat = λ a b. a }

-- a client that knows no intent
abbrev client : Client ℕ
client = record {
  propose = λ t n. (ok null, n + 1);
  status = λ id n. (ok none, n);
  attest = λ id kind n. (err other, n);
}

abbrev status_call : Json
status_call = dict (
    ("id", number (pos 1))
    ∷ ("method", text "tools/call")
    ∷ (
      "params",
      dict (
          ("name", text "lumo.get_status")
          ∷ ("arguments", dict (("intent_id", text "I1") ∷ []))
          ∷ []),
    )
    ∷ [])

handle-Outcome_example :
    Outcome (id_of status_call) (is_malformed status_call) (handle sh client status_call 0).0
handle-Outcome_example = handle-Outcome sh client status_call 0

serve-Served_example :
    Served
      (some status_call ∷ none ∷ some (dict []) ∷ [])
      (0, [])
      (serve sh client (some status_call ∷ none ∷ some (dict []) ∷ []) (0, []))
serve-Served_example =
    serve-Served sh client (some status_call ∷ none ∷ some (dict []) ∷ []) (0, [])
      (refl, (tt, (refl, tt)))

abbrev services : Services ℕ
services = record {
  propose = λ t n. (ok null, n);
  status = λ id n. (ok none, n);
  attest = λ id kind n. (ok tt, n);
  metrics = λ n. (ok null, n);
  subscribe = λ n. (ok tt, n + 1);
  validate_url = λ url n. (ok tt, n);
  read = λ k n. ("{}", n);
  int = λ s. some (pos 2000000);
  loads = λ s. inl (dict (("url", text "https://a.org") ∷ []));
  result_schema = null;
  intent_path = λ p. none;
  attest_path = λ p. none;
}

abbrev hook : Request
hook = record { path = "/v1/webhooks"; content_length = some "2" }

-- the same with a length that is in order
abbrev small : Services ℕ
small = record services { int = λ s. some (pos 2) }

registered-IsSound_example : IsSound small (
    urls_of
      (run_requests small
        (post hook ∷ post hook ∷ [])
        (record { dispatcher = none; world = 0 })).dispatcher)
registered-IsSound_example = registered-IsSound small (post hook ∷ post hook ∷ []) 0

body-bounded_example : ReadsAtMost (body (traced_services small) hook (0, [])).1.1
body-bounded_example = body-bounded small hook 0

do_post-refused_example :
    (((do_post services hook (record { dispatcher = none; world = 0 })).0.code ≡ 400)
      ⊎ ((do_post services hook (record { dispatcher = none; world = 0 })).0.code ≡ 413))
    × ((do_post services hook (record { dispatcher = none; world = 0 })).1
        ≡ record { dispatcher = none; world = 0 })
do_post-refused_example =
    do_post-refused services hook (record { dispatcher = none; world = 0 }) refl

abbrev script : String → Action ℕ (Unit {0})
script mig n = (ok tt, n + 1)

abbrev in_order : List String → List String
in_order ids = ids

abbrev old : Database ℕ
old = record { schema_migrations = "0001" ∷ []; schema = 1 }

up_ran : (up script in_order ("0001" ∷ "0002" ∷ []) old).0 ≡ ok ("0002" ∷ [])
unfolding up
up_ran = refl

up_lem_example :
    (("0002" ∷ []) ≡ pending (applied script in_order old) ("0001" ∷ "0002" ∷ []))
    × ((up script in_order ("0001" ∷ "0002" ∷ []) old).1.schema_migrations
        ≡ old.schema_migrations ++ "0002" ∷ [])
    × (up script in_order ("0001" ∷ "0002" ∷ []) (up script in_order ("0001" ∷ "0002" ∷ []) old).1
        ≡ (ok [], (up script in_order ("0001" ∷ "0002" ∷ []) old).1))
up_lem_example =
    up_lem script in_order ("0001" ∷ "0002" ∷ []) ("0002" ∷ []) old (λ x xs. refl) up_ran

abbrev keep : String → String
keep s = s

abbrev strictly : Config
strictly = with_trust strict defaults

made_strictly : profile keep "strict" (λ c. c) ≡ ok strictly
unfolding profile post_init
made_strictly = refl

trust_profile-profile_example : trust_profile strictly ≡ "strict"
trust_profile-profile_example = trust_profile-profile keep "strict" strictly made_strictly
