-- ===== src/Uri/Safe.antt =====
-- web/src/lib/queries.ts: an encoding holds no separator of a URL, and a text of ASCII has one.
use yafu.Base.{
  ℕ, ◌/◌, ◌%◌, ◌<◌, ◌≡◌, ◌≢◌, refl, Bool, true, false, ◌||◌, Bool-cases, none, some, List, [], ◌∷◌,
  ◌++◌, Text, ◌==◌, Lacks, All, arith, inl, inr,
}
use yafu.Uri.Octets.{octets_small}
use yafu.Uri.{
  unreserved, is_high, is_low, code_point, octets, hex_digit, percent, unit_text,
  encode_uri_component,
}
use yafu.Uri.Decode.{code_point_range, IsUtf16, prefix-some}

-- The units of an encoding.
abbrev pub is_safe : ℕ → Bool
is_safe c = unreserved c || c == b'%'

abbrev pub IsSafe : Text → Type 0
IsSafe = All (λ c. is_safe c ≡ true)

IsSafe-append : (s t : Text) → IsSafe s → IsSafe t → IsSafe (s ++ t)
IsSafe-append [] t h k = k
IsSafe-append (c ∷ s) t (h, hs) k = (h, IsSafe-append s t hs k)

hex_digit_safe : (d : ℕ) → d < 16 → is_safe (hex_digit d) ≡ true
unfolding hex_digit unreserved
hex_digit_safe d h = ground arith

percent_mark_safe : is_safe b'%' ≡ true
unfolding unreserved
percent_mark_safe = refl

percent-IsSafe : (os : List ℕ) → All (λ o. o < 256) os → IsSafe (percent os)
unfolding percent
percent-IsSafe [] h = tt
percent-IsSafe (o ∷ os) (h, hs) = (
  percent_mark_safe,
  (
    hex_digit_safe (o / 16) (omega arith),
    (hex_digit_safe (o % 16) (omega arith), percent-IsSafe os hs),
  ),
)

escape-IsSafe : (n : ℕ) → n < 1114112 → IsSafe (percent (octets n))
escape-IsSafe n h = percent-IsSafe (octets n) (octets_small n h)

unit_text-IsSafe : (c : ℕ) → c < 65536 → IsSafe (unit_text c)
unfolding unit_text
unit_text-IsSafe c h = elim (Bool-cases (unreserved c)) [
  | inl e ↦ rw e (rw e refl, tt)
  | inr e ↦ rw e (escape-IsSafe c (omega arith))
]

-- An encoding is made of letters, digits, the marks that are kept, and `%`.
pub encode-IsSafe : (s e : Text) → IsUtf16 s → encode_uri_component s ≡ some e → IsSafe e
unfolding encode_uri_component
encode-IsSafe [] e h p = let empty : [] ≡ e = cc in rw (← empty) tt
encode-IsSafe (c ∷ []) e (h, _) p = elim (Bool-cases (is_high c || is_low c)) [
  | inl t ↦ let missing : none ≡ some e = rw t at p in cc
  | inr t ↦
      let found : some (unit_text c) ≡ some e = rw t at p in
      let same : unit_text c ≡ e = cc in rw (← same) (unit_text-IsSafe c h)
]
encode-IsSafe (c ∷ d ∷ s) e (h, (k, hs)) p = elim (Bool-cases (is_high c)) [
  | inl t ↦ elim (Bool-cases (is_low d)) [
    | inl l ↦
        let (r, q, a) =
          prefix-some (percent (octets (code_point c d))) (encode_uri_component s) e
            (rw (t, l) at p) in
        rw (← a) (
          IsSafe-append (percent (octets (code_point c d))) r
            (escape-IsSafe (code_point c d) (code_point_range c d t l).1) (encode-IsSafe s r hs q))
    | inr l ↦ let missing : none ≡ some e = rw (t, l) at p in cc
  ]
  | inr t ↦ elim (Bool-cases (is_low c)) [
    | inl l ↦ let missing : none ≡ some e = rw (t, l) at p in cc
    | inr l ↦
        let (r, q, a) =
          prefix-some (unit_text c) (encode_uri_component (d ∷ s)) e (rw (t, l) at p) in
        rw (← a)
          (IsSafe-append (unit_text c) r (unit_text-IsSafe c h) (encode-IsSafe (d ∷ s) r (k, hs) q))
  ]
]

pub IsSafe-Lacks : (d : ℕ) (s : Text) → is_safe d ≡ false → IsSafe s → Lacks d s
IsSafe-Lacks d [] h k = tt
IsSafe-Lacks d (c ∷ s) h (k, ks) = (other, IsSafe-Lacks d s h ks)
  where
    other : c ≢ d
    other e = let kept : is_safe d ≡ true = rw (← e) k in cc

abbrev pub IsAscii : Text → Type 0
IsAscii = All (λ c. c < 128)

ascii_plain : (c : ℕ) → c < 128 → (is_high c ≡ false) × (is_low c ≡ false)
ascii_plain c h = (ground arith, ground arith)

-- No text of ASCII makes `encodeURIComponent` throw.
pub encode-ascii : (s : Text) → IsAscii s → (e : Text) × (encode_uri_component s ≡ some e)
unfolding encode_uri_component
encode-ascii [] h = ([], refl)
encode-ascii (c ∷ []) (h, _) =
    let (high, low) = ascii_plain c h in (unit_text c, rw (high, low) refl)
encode-ascii (c ∷ d ∷ s) (h, hs) =
    let (high, low) = ascii_plain c h in
    let (r, e) = encode-ascii (d ∷ s) hs in (unit_text c ++ r, rw (high, low, e) refl)
