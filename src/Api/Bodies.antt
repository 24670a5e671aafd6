-- ===== src/Api/Bodies.antt =====
-- How much is read of a request, and what a request gets whose length is not in order.
use lumo.Base.{
  ℕ, ℤ, pos, negsuc, ◌≤◌, ◌≡◌, ◌⊎◌, refl, Bool, true, false, Option, none, some, List, [], ◌∷◌,
  ◌++◌, String, ltb, leb, Action, inl, inr, Bool-cases, arith,
}
use lumo.Json.{Fields}
use lumo.Api.{
  Request, Services, Handler, BodyError, body, read_body, body_with, body_for, do_post, with_body,
  max_body_bytes,
}

-- nothing, or one number of at most 1 MiB
abbrev pub ReadsAtMost : List ℕ → Type 0
ReadsAtMost reads = (reads ≡ []) ⊎ ((n : ℕ) × (reads ≡ n ∷ []) × (n ≤ max_body_bytes))

module _ {W : Type 0} where
  abbrev lifted : {A : Type 0} → Action W A → Action (W × List ℕ) A
  lifted m w = ((m w.0).0, ((m w.0).1, w.1))

  -- the services with a record of how many bytes were asked for
  abbrev pub traced_services : Services W → Services (W × List ℕ)
  traced_services sv = record {
    propose = λ t. lifted (sv.propose t);
    status = λ id. lifted (sv.status id);
    attest = λ id kind. lifted (sv.attest id kind);
    metrics = lifted sv.metrics;
    subscribe = lifted sv.subscribe;
    validate_url = λ url. lifted (sv.validate_url url);
    read = λ n w. ((sv.read n w.0).0, ((sv.read n w.0).1, w.1 ++ n ∷ []));
    int = sv.int;
    loads = sv.loads;
    result_schema = sv.result_schema;
    intent_path = sv.intent_path;
    attest_path = sv.attest_path;
  }

  read_body-bounded :
      (sv : Services W) (length : ℤ) (w : W)
      → ReadsAtMost (read_body (traced_services sv) length (w, [])).1.1
  read_body-bounded sv (negsuc n) w = inl refl
  read_body-bounded sv (pos n) w = elim (Bool-cases (ltb max_body_bytes n)) [
    | inl large ↦ inl (rw large refl)
    | inr small ↦ inr (n, rw small refl, ground arith)
  ]

  body_with-bounded :
      (sv : Services W) (length : Option ℤ) (w : W)
      → ReadsAtMost (body_with (traced_services sv) length (w, [])).1.1
  body_with-bounded sv none w = inl refl
  body_with-bounded sv (some length) w = read_body-bounded sv length w

  body_for-bounded :
      (sv : Services W) (raw : Option String) (w : W)
      → ReadsAtMost (body_for (traced_services sv) raw (w, [])).1.1
  body_for-bounded sv none w = inl refl
  body_for-bounded sv (some raw) w = body_with-bounded sv (sv.int raw) w

  -- The body of a request is read at most once, and no more than 1 MiB of it is asked for.
  pub body-bounded :
      (sv : Services W) (request : Request) (w : W)
      → ReadsAtMost (body (traced_services sv) request (w, [])).1.1
  unfolding body
  body-bounded sv request w = body_for-bounded sv request.content_length w

abbrev is_allowed : ℤ → Bool
is_allowed (negsuc n) = false
is_allowed (pos n) = leb n max_body_bytes

abbrev is_number : Option ℤ → Bool
is_number none = false
is_number (some n) = is_allowed n

abbrev is_length : (String → Option ℤ) → Option String → Bool
is_length int none = false
is_length int (some raw) = is_number (int raw)

module _ {W : Type 0} (sv : Services W) (request : Request) (h : Handler W) where
  -- The request says its length, an integer from 0 to 1 MiB.
  abbrev pub is_framed : Bool
  is_framed = is_length sv.int request.content_length

  -- turned away, with nothing changed
  abbrev Refused : (Fields ⊎ BodyError) × W → Type 0
  Refused c =
      let r = with_body sv request c.0 (record h { world = c.1 }) in
      ((r.0.code ≡ 400) ⊎ (r.0.code ≡ 413)) × (r.1 ≡ h)

  read_body-Refused :
      (length : ℤ) → is_allowed length ≡ false → Refused (read_body sv length h.world)
  read_body-Refused (negsuc n) bad = (inl refl, refl)
  read_body-Refused (pos n) bad =
      let large : ltb max_body_bytes n ≡ true = ground arith in rw large (inr refl, refl)

  body_with-Refused :
      (length : Option ℤ) → is_number length ≡ false → Refused (body_with sv length h.world)
  body_with-Refused none bad = (inl refl, refl)
  body_with-Refused (some length) bad = read_body-Refused length bad

  body_for-Refused :
      (raw : Option String) → is_length sv.int raw ≡ false → Refused (body_for sv raw h.world)
  body_for-Refused none bad = (inl refl, refl)
  body_for-Refused (some raw) bad = body_with-Refused (sv.int raw) bad

  -- A POST request whose length is missing, no integer, negative or above 1 MiB is answered with
  -- 400 or 413, and nothing has changed: the body is not read and no service is called.
  pub do_post-refused :
      is_framed ≡ false
      → (((do_post sv request h).0.code ≡ 400) ⊎ ((do_post sv request h).0.code ≡ 413))
        × ((do_post sv request h).1 ≡ h)
  unfolding do_post body
  do_post-refused bad = body_for-Refused request.content_length bad
