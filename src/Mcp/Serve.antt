-- ===== src/Mcp/Serve.antt =====
-- The loop of the server over the lines of its input.
use lumo.Base.{
  ◌≡◌, ◌≢◌, subst, refl, ap, ◌∙◌, sym, Bool, true, false, Option, none, some, List, [], ◌∷◌, ◌++◌,
  All, Result, ok, err, Error, arith, Result-cases, inl, inr, append_assoc, append-nil,
}
use lumo.Json.{Json, is_null}
use lumo.Mcp.{Client, Show, handle, serve, written, written_for}
use lumo.Mcp.Reply.{
  Outcome, raises, silent, answers, is_malformed, id_of, handle-Outcome, IsResponse,
}

abbrev pub IsFine : Option Json → Type 0
IsFine none = Unit {0}
IsFine (some request) = is_malformed request ≡ false

-- One response for each request with an id, in the order of the requests.
pub data Answers : List (Option Json) → List Json → Type 0 where
  done : Answers [] []
  skipped :
      {lines : List (Option Json)} {out : List Json}
      → Answers lines out
      → Answers (none ∷ lines) out
  notified :
      {request : Json} {lines : List (Option Json)} {out : List Json}
      → is_null (id_of request) ≡ true
      → Answers lines out
      → Answers (some request ∷ lines) out
  answered :
      {request j : Json} {lines : List (Option Json)} {out : List Json}
      → IsResponse (id_of request) j
      → Answers lines out
      → Answers (some request ∷ lines) (j ∷ out)

-- The loop has ended, and `w` went in.
pub record Served {S : Type 0} (lines : List (Option Json)) (w : S × List Json)
    (r : Result (Unit {0}) × (S × List Json)) : Type 0 where
  pub returns : r.0 ≡ ok tt
  pub out : List Json
  pub written : r.1.1 ≡ w.1 ++ out
  pub answers : Answers lines out

never_raises : {id : Json} {bad : Bool} {x : Error} → Outcome id bad (err x) → bad ≢ false
never_raises (raises e) good = absurd (ground arith)

module _ {S : Type 0} where
  -- The loop went on after a request with its response, if any.
  extend :
      {bad : Bool} (request : Json) (lines : List (Option Json)) (w v : S × List Json)
      {r : Result (Unit {0}) × (S × List Json)} (o : Option Json)
      → v.1 ≡ w.1 ++ written o
      → Outcome (id_of request) bad (ok o)
      → Served lines v r
      → Served (some request ∷ lines) w r
  extend request lines w v none e (silent h n) rest = record {
    returns = rest.returns;
    out = rest.out;
    written = rest.written ∙ ap (λ x. x ++ rest.out) (e ∙ append-nil w.1);
    answers = notified n rest.answers;
  }
  extend request lines w v (some j) e (answers h j' is) rest = record {
    returns = rest.returns;
    out = j ∷ rest.out;
    written = rest.written ∙ ap (λ x. x ++ rest.out) e ∙ append_assoc w.1 (j ∷ []) rest.out;
    answers = answered is rest.answers;
  }

module _ {S : Type 0} (sh : Show) (client : Client S) where
  pub serve-Served :
      (lines : List (Option Json)) (w : S × List Json)
      → All IsFine lines
      → Served lines w (serve sh client lines w)
  unfolding serve
  serve-Served [] w fine = record {
    returns = refl;
    out = [];
    written = sym (append-nil w.1);
    answers = done;
  }
  serve-Served (none ∷ lines) w (_, fine) =
      let rest = serve-Served lines w fine in
      record {
        returns = rest.returns;
        out = rest.out;
        written = rest.written;
        answers = skipped rest.answers;
      }
  serve-Served (some request ∷ lines) w (good, fine) =
      let o = handle-Outcome sh client request w.0 in
      let s' = (handle sh client request w.0).1 in
      elim (Result-cases (handle sh client request w.0).0) [
        | inl (r, e) ↦
            rw (serve, e, ap written_for e)
              (extend request lines w (s', w.1 ++ written r) r refl
                (subst (Outcome (id_of request) (is_malformed request)) e o)
                (serve-Served lines (s', w.1 ++ written r) fine))
        | inr (x, e) ↦
            absurd (never_raises (subst (Outcome (id_of request) (is_malformed request)) e o) good)
      ]
