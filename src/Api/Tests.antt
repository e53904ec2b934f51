-- ===== src/Api/Tests.antt =====
-- web/src/lib/api.ts: runs at concrete inputs.
use yafu.Base.{
  decimal, ℕ, ◌≡◌, refl, false, none, some, ◌++◌, Text, codes, starts_with, digits, arith,
}
use yafu.Uri.{encode_uri_component, unit_text, unreserved, percent, octets, hex_digit}
use yafu.Uri.Safe.{IsAscii}
use yafu.Api.{
  Response, Location, fetch_json, handle_unauthorized, ErrorBody, auth_prefix, waits, api_error,
}
use yafu.Api.Redirect.{fetch_json-redirect, ReturnsTo}

abbrev expired : Response ℕ
expired = record { status = 401; ok = false; error_body = ErrorBody.malformed; json = none }

abbrev missing : Response ℕ
missing = record {
  status = 404;
  ok = false;
  error_body = ErrorBody.with_error (codes "no such app");
  json = none;
}

abbrev apps_page : Location
apps_page = record { pathname = codes "/apps"; search = codes "?q=a" }

abbrev sent_to : Text
sent_to = codes "/auth/login?return=%2Fapps%3Fq%3Da"

expired-fetch_json :
    fetch_json (some apps_page) expired ≡ record { assigned = some sent_to; result = waits }
unfolding fetch_json handle_unauthorized starts_with encode_uri_component unit_text unreserved
    percent octets hex_digit
expired-fetch_json = refl

missing-fetch_json :
    fetch_json none missing
    ≡ record { assigned = none; result = api_error 404 (codes "HTTP 404: no such app") }
unfolding fetch_json handle_unauthorized digits decimal
missing-fetch_json = refl

outside_auth : starts_with apps_page.pathname auth_prefix ≡ false
unfolding starts_with
outside_auth = refl

IsAscii-page : IsAscii (apps_page.pathname ++ apps_page.search)
IsAscii-page = (
  omega arith,
  (
    omega arith,
    (
      omega arith,
      (omega arith, (omega arith, (omega arith, (omega arith, (omega arith, (omega arith, tt)))))),
    ),
  ),
)

fetch_json-redirect_example :
    (u : Text) × (fetch_json (some apps_page) expired
      ≡ record { assigned = some u; result = waits })
    × ReturnsTo apps_page u
fetch_json-redirect_example = fetch_json-redirect apps_page expired refl outside_auth IsAscii-page
