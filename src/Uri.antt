-- ===== src/Uri.antt =====
-- web/src/lib/queries.ts and web/src/lib/api.ts: `encodeURIComponent` of the language, which builds
-- every path, as ECMA-262 has it: over the UTF-16 units of a text.
pub mod Octets
pub mod Decode
pub mod Safe
mod Tests
use yafu.Base.{
  ℕ, ◌+◌, ◌-◌, ◌*◌, ◌/◌, ◌%◌, Bool, true, false, ◌&&◌, ◌||◌, Option, none, some, List, [], ◌∷◌,
  ◌++◌, Text, codes, has, ltb, leb, ◌==◌, if◌then◌else◌,
}

abbrev pub between : ℕ → ℕ → ℕ → Bool
between a b c = leb a c && leb c b

-- The units that are kept: letters, digits, and the marks `-_.!~*'()`
unfoldable pub unreserved : ℕ → Bool
unreserved c =
    between b'A' b'Z' c
    || (between b'a' b'z' c
        || (between b'0' b'9' c
            || (c == b'-'
                || (c == b'_'
                    || (c == b'.'
                        || (c == b'!'
                            || (c == b'~'
                                || (c == b'*' || (c == 39 || (c == b'(' || c == b')'))))))))))

abbrev pub is_high : ℕ → Bool
is_high = between 55296 56319

abbrev pub is_low : ℕ → Bool
is_low = between 56320 57343

-- The code point of a surrogate pair.
unfoldable pub code_point : ℕ → ℕ → ℕ
code_point c d = (c - 55296) * 1024 + (d - 56320) + 65536

-- UTF-8
unfoldable pub octets : ℕ → List ℕ
octets n =
    if ltb n 128
    then n ∷ []
    else if ltb n 2048
    then (192 + n / 64) ∷ (128 + n % 64) ∷ []
    else if ltb n 65536
    then (224 + n / 4096) ∷ (128 + n / 64 % 64) ∷ (128 + n % 64) ∷ []
    else (240 + n / 262144) ∷ (128 + n / 4096 % 64) ∷ (128 + n / 64 % 64) ∷ (128 + n % 64) ∷ []

unfoldable pub hex_digit : ℕ → ℕ
hex_digit d = if ltb d 10 then 48 + d else 55 + d

-- `%XX` for each octet
unfoldable pub percent : List ℕ → Text
percent [] = []
percent (o ∷ os) = b'%' ∷ hex_digit (o / 16) ∷ hex_digit (o % 16) ∷ percent os

-- What stands for one unit that is no surrogate.
unfoldable pub unit_text : ℕ → Text
unit_text c = if unreserved c then c ∷ [] else percent (octets c)

abbrev pub prefix : Text → Option Text → Option Text
prefix p none = none
prefix p (some s) = some (p ++ s)

-- `none` stands for the URIError that a lone surrogate raises
unfoldable pub encode_uri_component : Text → Option Text
encode_uri_component [] = some []
encode_uri_component (c ∷ []) = if is_high c || is_low c then none else some (unit_text c)
encode_uri_component (c ∷ d ∷ s) =
    let rest = encode_uri_component (d ∷ s) in
    let after_pair = encode_uri_component s in
    if is_high c
    then (if is_low d then prefix (percent (octets (code_point c d))) after_pair else none)
    else if is_low c
    then none
    else prefix (unit_text c) rest

abbrev pub cons_all : Option Text → Option (List Text) → Option (List Text)
cons_all none rest = none
cons_all (some e) none = none
cons_all (some e) (some es) = some (e ∷ es)

-- `texts.map(encodeURIComponent)`
abbrev pub encode_all : List Text → Option (List Text)
encode_all [] = some []
encode_all (s ∷ ss) = cons_all (encode_uri_component s) (encode_all ss)
