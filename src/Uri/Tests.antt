-- ===== src/Uri/Tests.antt =====
-- web/src/lib/queries.ts, `encodeURIComponent`: runs at concrete inputs.
use yafu.Base.{◌≡◌, refl, none, some, [], ◌∷◌, Text, codes, arith}
use yafu.Uri.{encode_uri_component, unit_text, unreserved, percent, octets, hex_digit, code_point}
use yafu.Uri.Decode.{decode, IsUtf16, decode-encode, encode-inj}
use yafu.Uri.Safe.{IsSafe, encode-IsSafe, encode-ascii}

-- A slash, an e with an acute accent, and a surrogate pair.
abbrev sample : Text
sample = b'a' ∷ b'/' ∷ 233 ∷ 55357 ∷ 56832 ∷ []

abbrev sample_encoded : Text
sample_encoded = codes "a%2F%C3%A9%F0%9F%98%80"

sample-encode : encode_uri_component sample ≡ some sample_encoded
unfolding encode_uri_component unit_text unreserved percent octets hex_digit code_point
sample-encode = refl

lone_surrogate : encode_uri_component (55357 ∷ b'a' ∷ []) ≡ none
unfolding encode_uri_component
lone_surrogate = refl

sample-IsUtf16 : IsUtf16 sample
sample-IsUtf16 = (omega arith, (omega arith, (omega arith, (omega arith, (omega arith, tt)))))

decode-encode_example : decode sample_encoded ≡ sample
decode-encode_example = decode-encode sample sample_encoded sample-IsUtf16 sample-encode

encode-inj_example : sample ≡ sample
encode-inj_example =
    encode-inj sample sample sample_encoded sample-IsUtf16 sample-IsUtf16 sample-encode
      sample-encode

encode-IsSafe_example : IsSafe sample_encoded
encode-IsSafe_example = encode-IsSafe sample sample_encoded sample-IsUtf16 sample-encode

encode-ascii_example : (e : Text) × (encode_uri_component (codes "a b") ≡ some e)
encode-ascii_example = encode-ascii (codes "a b") (omega arith, (omega arith, (omega arith, tt)))
