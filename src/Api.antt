-- ===== src/Api.antt =====
-- web/src/lib/api.ts: how a response of the server becomes a value, an error, or a redirect to the
-- login page. The browser's `fetch` is outside: a response is an argument.
pub mod Redirect
mod Tests
use yafu.Base.{
  [], ℕ, ◌==◌, Bool, true, false, Option, none, some, ◌++◌, Text, codes, decimal, truthy,
  starts_with, if◌then◌else◌,
}
use yafu.Uri.{encode_uri_component}

-- What `res.json()` gives in the error branch: it rejects, or a body with or without an `error`.
pub data ErrorBody : Type 0 where
  malformed without_error : ErrorBody
  with_error : Text → ErrorBody

-- `json` is `none` where `res.json()` rejects
pub record Response (T : Type 0) : Type 0 where
  pub status : ℕ
  pub ok : Bool
  pub error_body : ErrorBody
  pub json : Option T

pub record Location : Type 0 where
  pub pathname : Text
  pub search : Text

-- How the promise of `fetchJSON` ends; `waits` is the promise that never resolves.
pub data Result (T : Type 0) : Type 0 where
  waits syntax_error uri_error : Result T
  api_error : ℕ → Text → Result T
  value : T → Result T

-- `assigned` is what `window.location.assign` got, if it was called
pub record Fetched (T : Type 0) : Type 0 where
  pub assigned : Option Text
  pub result : Result T

abbrev pub auth_prefix : Text
auth_prefix = codes "/auth/"

abbrev pub login_prefix : Text
login_prefix = codes "/auth/login?return="

-- `handleUnauthorized`: nothing, an assignment, or the URIError of `encodeURIComponent`; there is no
-- location where `window` is undefined.
pub data Handled : Type 0 where
  stays throws : Handled
  assigns : Text → Handled

abbrev redirect_to : Option Text → Handled
redirect_to none = throws
redirect_to (some ret) = assigns (login_prefix ++ ret)

unfoldable pub handle_unauthorized : Option Location → Handled
handle_unauthorized none = stays
handle_unauthorized (some l) =
    if starts_with l.pathname auth_prefix
    then stays
    else redirect_to (encode_uri_component (l.pathname ++ l.search))

abbrev pub detail_of : ErrorBody → Text
detail_of malformed = []
detail_of without_error = []
detail_of (with_error e) = if truthy e then codes ": " ++ e else []

module _ {T : Type 0} where
  abbrev pub unauthorized : Handled → Fetched T
  unauthorized stays = record { assigned = none; result = waits }
  unauthorized throws = record { assigned = none; result = uri_error }
  unauthorized (assigns u) = record { assigned = some u; result = waits }

  abbrev pub parsed : Option T → Result T
  parsed none = syntax_error
  parsed (some v) = value v

  unfoldable pub fetch_json : Option Location → Response T → Fetched T
  unfolding handle_unauthorized
  fetch_json location res =
      if res.status == 401
      then unauthorized (handle_unauthorized location)
      else if res.ok
      then record { assigned = none; result = parsed res.json }
      else record {
        assigned = none;
        result =
            api_error res.status
              (codes "HTTP " ++ (decimal res.status ++ detail_of res.error_body));
      }
