-- ===== src/Api/Redirect.antt =====
-- web/src/lib/api.ts: which responses give a value, and the redirect to the login page.
use yafu.Base.{
  ℕ, ◌≡◌, ◌≢◌, ◌↔◌, refl, true, false, Bool-cases, Option, none, some, Option-cases, [], ◌∷◌, ◌++◌,
  Text, codes, Lacks, starts_with, arith, inl, inr, ◌==◌,
}
use yafu.Uri.{unreserved, encode_uri_component}
use yafu.Uri.Decode.{decode, decode-encode, IsUtf16}
use yafu.Uri.Safe.{is_safe, encode-IsSafe, IsSafe-Lacks, encode-ascii, IsAscii}
use yafu.Api.{
  assigns, stays, throws, value, waits, Handled, api_error, Response, Location, fetch_json,
  handle_unauthorized, auth_prefix, login_prefix, unauthorized, parsed,
}

no_value : {T : Type 0} (h : Handled) (v : T) → (unauthorized h).result ≢ value v
no_value stays v e = cc
no_value throws v e = cc
no_value (assigns u) v e = cc

parsed_value : {T : Type 0} (o : Option T) (v : T) → parsed o ≡ value v → o ≡ some v
parsed_value none v e = cc
parsed_value (some w) v e = cc

no_error_value : {T : Type 0} (n : ℕ) (m : Text) (v : T) → api_error n m ≢ value v
no_error_value n m v e = cc

module _ {T : Type 0} (location : Option Location) (res : Response T) where
  -- A call gives a value exactly when the response is no 401, is ok, and its body parses to it.
  pub fetch_json-value :
      (v : T)
      → ((fetch_json location res).result ≡ value v)
        ↔ (((res.status == 401) ≡ false) × (res.ok ≡ true) × (res.json ≡ some v))
  unfolding fetch_json
  fetch_json-value v = (forward, λ (a, b, c). rw (a, b, c) refl)
    where
      forward :
          (fetch_json location res).result ≡ value v
          → ((res.status == 401) ≡ false) × (res.ok ≡ true) × (res.json ≡ some v)
      forward h = elim (Bool-cases (res.status == 401)) [
        | inl t ↦ absurd (no_value (handle_unauthorized location) v (rw t at h))
        | inr f ↦ elim (Bool-cases res.ok) [
          | inl o ↦ (f, o, parsed_value res.json v (rw (f, o) at h))
          | inr n ↦ absurd (no_error_value _ _ v (rw (f, n) at h))
        ]
      ]

ascii-IsUtf16 : (s : Text) → IsAscii s → IsUtf16 s
ascii-IsUtf16 [] h = tt
ascii-IsUtf16 (c ∷ s) (h, hs) = (omega (arith, h), ascii-IsUtf16 s hs)

ampersand : is_safe b'&' ≡ false
unfolding unreserved
ampersand = refl

hash : is_safe b'#' ≡ false
unfolding unreserved
hash = refl

-- `u` is the login page, with the page of `l` to return to.
pub record ReturnsTo (l : Location) (u : Text) : Type 0 where
  pub ret : Text
  pub address : login_prefix ++ ret ≡ u
  pub decoded : decode ret ≡ l.pathname ++ l.search
  pub one_parameter : Lacks b'&' ret
  pub no_fragment : Lacks b'#' ret

-- On a 401 outside /auth/, at an address of ASCII, the browser is sent to the login page and the
-- call never resolves. The one parameter of the login page's address decodes to the path and the
-- query of the page that the user was on.
pub fetch_json-redirect :
    {T : Type 0} (l : Location) (res : Response T)
    → res.status ≡ 401
    → starts_with l.pathname auth_prefix ≡ false
    → IsAscii (l.pathname ++ l.search)
    → (u : Text) × (fetch_json (some l) res ≡ record { assigned = some u; result = waits })
      × ReturnsTo l u
unfolding fetch_json handle_unauthorized
fetch_json-redirect l res h k ascii =
    let (e, p) = encode-ascii (l.pathname ++ l.search) ascii in
    let utf16 = ascii-IsUtf16 (l.pathname ++ l.search) ascii in
    let safe = encode-IsSafe (l.pathname ++ l.search) e utf16 p in
    (
      login_prefix ++ e,
      rw (h, k, p) refl,
      record {
        ret = e;
        address = refl;
        decoded = decode-encode (l.pathname ++ l.search) e utf16 p;
        one_parameter = IsSafe-Lacks b'&' e ampersand safe;
        no_fragment = IsSafe-Lacks b'#' e hash safe;
      },
    )

abbrev pub login_page : Text → Location
login_page search = record { pathname = codes "/auth/login"; search = search }

-- The login page makes no call of `assign`.
stays_on_login :
    {T : Type 0} (search : Text) (res : Response T)
    → (fetch_json (some (login_page search)) res).assigned ≡ none
unfolding fetch_json handle_unauthorized starts_with
stays_on_login search res = elim (Bool-cases (res.status == 401)) [
  | inl e ↦ rw e refl
  | inr e ↦ elim (Bool-cases res.ok) [ inl o ↦ rw (e, o) refl | inr o ↦ rw (e, o) refl ]
]

-- Where a call makes an assignment, it is the one of `handleUnauthorized`.
assigned_once :
    {T : Type 0} (l : Location) (res : Response T) (u : Text)
    → (fetch_json (some l) res).assigned ≡ some u
    → (unauthorized {T = T} (handle_unauthorized (some l))).assigned ≡ some u
unfolding fetch_json
assigned_once l res u h = elim (Bool-cases (res.status == 401)) [
  | inl e ↦ rw e at h
  | inr e ↦ elim (Bool-cases res.ok) [
    | inl o ↦ let no' : none ≡ some u = rw (e, o) at h in cc
    | inr o ↦ let no' : none ≡ some u = rw (e, o) at h in cc
  ]
]

login_address :
    (T : Type 0) (l : Location) (u : Text)
    → (unauthorized {T = T} (handle_unauthorized (some l))).assigned ≡ some u
    → (search : Text) × (codes "/auth/login" ++ search ≡ u)
unfolding handle_unauthorized
login_address T l u a = elim (Bool-cases (starts_with l.pathname auth_prefix)) [
  | inl e ↦ let no' : none ≡ some u = rw e at a in cc
  | inr e ↦ elim (Option-cases (encode_uri_component (l.pathname ++ l.search))) [
    | inl p ↦ let no' : none ≡ some u = rw (e, p) at a in cc
    | inr (r, p) ↦
        let q : some (login_prefix ++ r) ≡ some u = rw (e, p) at a in
        (codes "?return=" ++ r, some_inj q)
  ]
]
  where
    some_inj : {v w : Text} → some v ≡ some w → v ≡ w
    some_inj q = cc

-- No loop: where a call sends the browser to an address, that is the login page's, and no call made
-- there sends it anywhere.
pub fetch_json_once :
    {T : Type 0} (l : Location) (res : Response T) (u : Text)
    → (fetch_json (some l) res).assigned ≡ some u
    → (search : Text) × (codes "/auth/login" ++ search ≡ u)
      × ((again : Response T) → (fetch_json (some (login_page search)) again).assigned ≡ none)
fetch_json_once {T} l res u h =
    let (search, e) = login_address T l u (assigned_once l res u h) in
    (search, e, stays_on_login search)
