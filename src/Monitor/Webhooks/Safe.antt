-- ===== src/Monitor/Webhooks/Safe.antt =====
-- A webhook is posted to only after its URL has been checked, and a check that passes has looked
-- at the scheme and at every address of the host.
use lumo.Base.{
  ℕ, ◌≡◌, refl, Bool, true, false, not, ◌⊎◌, inl, inr, Option, none, some, List, [], ◌∷◌, String,
  ◌==◌, elem, All, ok, err, Error, Bool-cases, arith, bind_ok, if◌then◌else◌, eq_iff, subst,
  bind_result, raise_if, or_raise, webhook_url_error,
}
use lumo.Monitor.Webhooks.{
  Url, Ip, Lookup, Net, validate_url, check_infos, check_lookup, is_non_public, given_host,
  given_port, gaierror, raised, infos, resolve,
}

-- The address has been read and is public.
abbrev pub IsPublic : {E : Type 0} → Net E → String → Type 0
IsPublic net a = (ip : Ip) × (net.ip_address a ≡ ok ip) × (is_non_public ip ≡ false)

-- What a check of `url` that passes in the state `s` has found.
pub record IsSafe {E : Type 0} (net : Net E) (url : String) (s : E) : Type 0 where
  pub parsed : Url
  pub parses : net.urlparse url ≡ ok parsed
  pub scheme : (parsed.scheme ≡ "http") ⊎ (parsed.scheme ≡ "https")
  pub host : String
  pub hostname : parsed.hostname ≡ some host
  pub port : Option ℕ
  pub addresses : List String
  pub found : (net.getaddrinfo host port s).0 ≡ infos addresses
  pub are_public : All (λ a. IsPublic net a) addresses

raise_if_ok : (c : Bool) (e : Error) → (if c then err e else ok (tt {0})) ≡ ok tt → c ≡ false
raise_if_ok true e h = ground arith
raise_if_ok false e h = refl

given_host-some : (o : Option String) (h : String) → given_host o ≡ some h → o ≡ some h
given_host-some none h e = e
given_host-some (some g) h e = elim (Bool-cases (g == "")) [
  | inl blank ↦ absurd (ground arith)
  | inr there ↦ ground arith
]

or_raise_ok :
    {S A : Type 0} (o : Option A) (e : Error) (a : A) (s : S)
    → (or_raise o e s).0 ≡ ok a
    → o ≡ some a
or_raise_ok none e a s h = ground arith
or_raise_ok (some b) e a s h = ground arith

or_raise_state : {S A : Type 0} (o : Option A) (e : Error) (s : S) → (or_raise o e s).1 ≡ s
or_raise_state none e s = refl
or_raise_state (some a) e s = refl

module _ {E : Type 0} (net : Net E) where
  check_infos-IsPublic :
      (as_ : List String) (s : E)
      → (check_infos net as_ s).0 ≡ ok tt
      → All (λ a. IsPublic net a) as_
  check_infos-IsPublic [] s h = tt
  check_infos-IsPublic (a ∷ rest) s h =
      let (ip, reads, h2) = bind_ok (net.ip_address a, s) _ tt h in
      let (_, public, h3) = bind_ok (raise_if (is_non_public ip) webhook_url_error s) _ tt h2 in
      (
        (ip, reads, raise_if_ok (is_non_public ip) webhook_url_error public),
        check_infos-IsPublic rest s h3,
      )

  check_lookup-IsPublic :
      (l : Lookup) (s : E)
      → (check_lookup net l s).0 ≡ ok tt
      → (as_ : List String) × (l ≡ infos as_) × All (λ a. IsPublic net a) as_
  check_lookup-IsPublic gaierror s h = absurd (ground arith)
  check_lookup-IsPublic raised s h = absurd (ground arith)
  check_lookup-IsPublic (infos as_) s h = (as_, refl, check_infos-IsPublic as_ s h)

  is_http :
      (scheme : String)
      → not (elem scheme ("http" ∷ "https" ∷ [])) ≡ false
      → (scheme ≡ "http") ⊎ (scheme ≡ "https")
  is_http scheme h = ground (arith, eq_iff "http" scheme, eq_iff "https" scheme)

  pub validate_url-IsSafe :
      (url : String) (s : E) → (validate_url net url s).0 ≡ ok tt → IsSafe net url s
  unfolding validate_url
  validate_url-IsSafe url s h =
      let (parsed, parses, h2) = bind_ok (net.urlparse url, s) _ tt h in
      let (_, known, h3) =
        bind_ok (raise_if (not (elem parsed.scheme ("http" ∷ "https" ∷ []))) webhook_url_error s) _
          tt h2 in
      let (host, named, h4) =
        bind_ok (or_raise (given_host parsed.hostname) webhook_url_error s) _ tt h3 in
      let h5 : (bind_result parsed.port s (λ port. resolve net host (given_port port))).0 ≡ ok tt =
        subst
          (λ t. (bind_result parsed.port t (λ port. resolve net host (given_port port))).0 ≡ ok tt)
          (or_raise_state (given_host parsed.hostname) webhook_url_error s) h4 in
      let (port, ported, h6) = bind_ok (parsed.port, s) _ tt h5 in
      let (as_, found, public) =
        check_lookup-IsPublic (net.getaddrinfo host (given_port port) s).0
          (net.getaddrinfo host (given_port port) s).1 h6 in
      record {
        parsed = parsed;
        parses = parses;
        scheme = is_http parsed.scheme (raise_if_ok _ webhook_url_error known);
        host = host;
        hostname =
            given_host-some parsed.hostname host
              (or_raise_ok (given_host parsed.hostname) webhook_url_error host s named);
        port = given_port port;
        addresses = as_;
        found = found;
        are_public = public;
      }
