-- ===== src/Uri/Decode.antt =====
-- web/src/lib/queries.ts: encoding a text loses nothing, shown with the decoder of UTF-8.
use yafu.Base.{
  ℕ, ◌+◌, ◌-◌, ◌*◌, ◌/◌, ◌%◌, ◌<◌, ◌≤◌, ◌≡◌, ◌≢◌, refl, sym, ap, ◌∙◌, ◌||◌, append-nil, true,
  Bool-cases, Option, none, some, [], ◌∷◌, ◌++◌, Text, All, arith, inl, inr,
}
use yafu.Uri.Octets.{
  unutf-octets, units-one, octets_small, unpercent-percent, unutf-one, units, unpercent, unutf,
  unpercent_kept,
}
use yafu.Uri.{
  octets, percent, unit_text, unreserved, code_point, encode_uri_component, is_high, is_low, prefix,
}

pub decode : Text → Text
decode s = unutf 0 0 (unpercent s)

decode-escape :
    (n : ℕ) (s : Text) → n < 1114112 → decode (percent (octets n) ++ s) ≡ units n ++ decode s
unfolding decode
decode-escape n s h =
    rw (unpercent-percent (octets n) s (octets_small n h)) (unutf-octets n (unpercent s) h)

unreserved_ascii : (c : ℕ) → unreserved c ≡ true → (c < 128) × (c ≢ b'%')
unfolding unreserved
unreserved_ascii c h = ground arith

decode-unit_text : (c : ℕ) (s : Text) → c < 65536 → decode (unit_text c ++ s) ≡ c ∷ decode s
unfolding unit_text decode
decode-unit_text c s h = elim (Bool-cases (unreserved c)) [
  | inl e ↦
      let (small, mark) = unreserved_ascii c e in
      rw (e, unpercent_kept c s mark) (unutf-one c (unpercent s) small)
  | inr e ↦ rw e (decode-escape c s (omega arith) ∙ rw (units-one c h) refl)
]

-- A surrogate pair.
module _ (c d : ℕ) (h : is_high c ≡ true) (l : is_low d ≡ true) where
  surrogates : (55296 ≤ c) × (c < 56320) × (56320 ≤ d) × (d < 57344)
  surrogates = ground arith

  pub code_point_range : (65536 ≤ code_point c d) × (code_point c d < 1114112)
  unfolding code_point
  code_point_range = let (a, b, e, f) = surrogates in omega arith

  units-code_point : units (code_point c d) ≡ c ∷ d ∷ []
  unfolding units code_point
  units-code_point =
      let (a, b, e, f) = surrogates in
      let high : 55296 + ((c - 55296) * 1024 + (d - 56320) + 65536 - 65536) / 1024 ≡ c =
        omega arith in
      let low : 56320 + ((c - 55296) * 1024 + (d - 56320) + 65536 - 65536) % 1024 ≡ d =
        omega arith in
      rw (high, low) (ground arith)

-- The units of a text are of 16 bits.
abbrev pub IsUtf16 : Text → Type 0
IsUtf16 = All (λ c. c < 65536)

pub prefix-some :
    (p : Text) (o : Option Text) (e : Text)
    → prefix p o ≡ some e
    → (r : Text) × (o ≡ some r) × (p ++ r ≡ e)
prefix-some p none e h = cc
prefix-some p (some r) e h = (r, refl, cc)

decode-pair :
    (c d : ℕ) (r t : Text)
    → is_high c ≡ true
    → is_low d ≡ true
    → decode r ≡ t
    → decode (percent (octets (code_point c d)) ++ r) ≡ c ∷ d ∷ t
decode-pair c d r t h l e =
    decode-escape (code_point c d) r (code_point_range c d h l).1
    ∙ rw (units-code_point c d h l, e) refl

decode-unit : (c : ℕ) (r t : Text) → c < 65536 → decode r ≡ t → decode (unit_text c ++ r) ≡ c ∷ t
decode-unit c r t h e = decode-unit_text c r h ∙ ap (λ x. c ∷ x) e

decode-nil : decode [] ≡ []
unfolding decode unpercent unutf
decode-nil = refl

-- Decoding the encoding of a text, where it has one, gives the text.
pub decode-encode : (s e : Text) → IsUtf16 s → encode_uri_component s ≡ some e → decode e ≡ s
unfolding encode_uri_component
decode-encode [] e h p = let empty : [] ≡ e = cc in rw (← empty) decode-nil
decode-encode (c ∷ []) e (h, _) p = elim (Bool-cases (is_high c || is_low c)) [
  | inl t ↦ let missing : none ≡ some e = rw t at p in cc
  | inr t ↦
      let found : some (unit_text c) ≡ some e = rw t at p in
      let same : unit_text c ++ [] ≡ e = append-nil (unit_text c) ∙ cc in
      rw (← same) (decode-unit c [] [] h decode-nil)
]
decode-encode (c ∷ d ∷ s) e (h, (k, hs)) p = elim (Bool-cases (is_high c)) [
  | inl t ↦ elim (Bool-cases (is_low d)) [
    | inl l ↦
        let (r, q, a) =
          prefix-some (percent (octets (code_point c d))) (encode_uri_component s) e
            (rw (t, l) at p) in
        rw (← a) (decode-pair c d r s t l (decode-encode s r hs q))
    | inr l ↦ let missing : none ≡ some e = rw (t, l) at p in cc
  ]
  | inr t ↦ elim (Bool-cases (is_low c)) [
    | inl l ↦ let missing : none ≡ some e = rw (t, l) at p in cc
    | inr l ↦
        let (r, q, a) =
          prefix-some (unit_text c) (encode_uri_component (d ∷ s)) e (rw (t, l) at p) in
        rw (← a) (decode-unit c r (d ∷ s) h (decode-encode (d ∷ s) r (k, hs) q))
  ]
]

-- Different texts have different encodings: two texts of 16-bit units with one encoding are equal.
pub encode-inj :
    (s t e : Text)
    → IsUtf16 s
    → IsUtf16 t
    → encode_uri_component s ≡ some e
    → encode_uri_component t ≡ some e
    → s ≡ t
encode-inj s t e hs ht p q = sym (decode-encode s e hs p) ∙ decode-encode t e ht q
