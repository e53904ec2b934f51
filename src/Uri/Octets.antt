-- ===== src/Uri/Octets.antt =====
-- web/src/lib/queries.ts: the octets of a code point, their percent signs, and how both are read back.
use yafu.Base.{
  ◌⊎◌, ℕ, zero, suc, ◌+◌, ◌-◌, ◌*◌, ◌/◌, ◌%◌, ◌<◌, ◌≤◌, ◌≡◌, ◌≢◌, refl, ap, ◌∙◌, List, [], ◌∷◌,
  ◌++◌, Text, ltb, ◌==◌, if◌then◌else◌, All, arith, inl, inr,
}
use yafu.Uri.{octets, hex_digit, percent}

unfoldable pub hex_value : ℕ → ℕ
hex_value c = if ltb c 58 then c - 48 else c - 55

hex_value-hex_digit : (d : ℕ) → d < 16 → hex_value (hex_digit d) ≡ d
unfolding hex_value hex_digit
hex_value-hex_digit d h = ground arith

-- `decodeURIComponent`, up to UTF-8
unfoldable pub unpercent : Text → List ℕ
unfolding hex_value
unpercent [] = []
unpercent (a ∷ []) = a ∷ []
unpercent (a ∷ b ∷ []) = a ∷ b ∷ []
unpercent (a ∷ b ∷ c ∷ s) =
    let rest = unpercent s in
    let kept = unpercent (b ∷ c ∷ s) in
    if a == b'%' then (hex_value b * 16 + hex_value c) ∷ rest else a ∷ kept

pub unpercent_kept : (c : ℕ) (s : Text) → c ≢ b'%' → unpercent (c ∷ s) ≡ c ∷ unpercent s
unfolding unpercent
unpercent_kept c [] h = refl
unpercent_kept c (a ∷ []) h = refl
unpercent_kept c (a ∷ b ∷ s) h = ground (arith, h)

pub unpercent-percent :
    (os : List ℕ) (s : Text)
    → All (λ o. o < 256) os
    → unpercent (percent os ++ s) ≡ os ++ unpercent s
unfolding unpercent percent
unpercent-percent [] s h = refl
unpercent-percent (o ∷ os) s (h, hs) =
    rw
      (
        hex_value-hex_digit (o / 16) (omega arith),
        hex_value-hex_digit (o % 16) (omega arith),
        unpercent-percent os s hs,
        whole,
      )
      refl
  where
    whole : o / 16 * 16 + o % 16 ≡ o
    whole = omega arith

module _ (n : ℕ) where
  octets-one : n < 128 → octets n ≡ n ∷ []
  unfolding octets
  octets-one h = ground arith

  octets-two : 128 ≤ n → n < 2048 → octets n ≡ (192 + n / 64) ∷ (128 + n % 64) ∷ []
  unfolding octets
  octets-two h k = ground arith

  octets-three :
      2048 ≤ n → n < 65536 → octets n ≡ (224 + n / 4096) ∷ (128 + n / 64 % 64) ∷ (128 + n % 64) ∷ []
  unfolding octets
  octets-three h k = ground arith

  octets-four :
      65536 ≤ n
      → octets n
        ≡ (240 + n / 262144) ∷ (128 + n / 4096 % 64) ∷ (128 + n / 64 % 64) ∷ (128 + n % 64) ∷ []
  unfolding octets
  octets-four h = ground arith

  -- The four lengths.
  sizes : (n < 128) ⊎ (((128 ≤ n) × (n < 2048)) ⊎ (((2048 ≤ n) × (n < 65536)) ⊎ (65536 ≤ n)))
  sizes = omega arith

  pub octets_small : n < 1114112 → All (λ o. o < 256) (octets n)
  octets_small h = elim sizes [
    | inl a ↦ rw (octets-one a) (omega arith, tt)
    | inr (inl (a, b)) ↦ rw (octets-two a b) (omega arith, (omega arith, tt))
    | inr (inr (inl (a, b))) ↦ rw (octets-three a b) (omega arith, (omega arith, (omega arith, tt)))
    | inr (inr (inr a)) ↦
        rw (octets-four a) (omega arith, (omega arith, (omega arith, (omega arith, tt))))
  ]

-- One unit, or the surrogate pair of a code point beyond them.
unfoldable pub units : ℕ → Text
units n =
    if ltb n 65536 then n ∷ [] else (55296 + (n - 65536) / 1024) ∷ (56320 + (n - 65536) % 1024) ∷ []

-- The decoder of UTF-8: how many octets are still wanted, and the bits so far.
unfoldable pub unutf : ℕ → ℕ → List ℕ → Text
unfolding units
unutf need acc [] = []
unutf zero acc (o ∷ os) =
    let one = unutf 0 0 os in
    let two = unutf 1 (o - 192) os in
    let three = unutf 2 (o - 224) os in
    let four = unutf 3 (o - 240) os in
    if ltb o 128 then o ∷ one else if ltb o 224 then two else if ltb o 240 then three else four
unutf (suc zero) acc (o ∷ os) = units (acc * 64 + (o - 128)) ++ unutf 0 0 os
unutf (suc (suc n)) acc (o ∷ os) = unutf (suc n) (acc * 64 + (o - 128)) os

module _ (o : ℕ) (os : List ℕ) where
  lead-two : 192 ≤ o → o < 224 → unutf 0 0 (o ∷ os) ≡ unutf 1 (o - 192) os
  unfolding unutf
  lead-two h k = ground arith

  lead-three : 224 ≤ o → o < 240 → unutf 0 0 (o ∷ os) ≡ unutf 2 (o - 224) os
  unfolding unutf
  lead-three h k = ground arith

  lead-four : 240 ≤ o → unutf 0 0 (o ∷ os) ≡ unutf 3 (o - 240) os
  unfolding unutf
  lead-four h = ground arith

module _ (n : ℕ) (os : List ℕ) where
  pub unutf-one : n < 128 → unutf 0 0 (n ∷ os) ≡ n ∷ unutf 0 0 os
  unfolding unutf
  unutf-one h = ground arith

  unutf-two :
      128 ≤ n
      → n < 2048
      → unutf 0 0 ((192 + n / 64) ∷ (128 + n % 64) ∷ os) ≡ units n ++ unutf 0 0 os
  unfolding unutf
  unutf-two h k =
      lead-two (192 + n / 64) ((128 + n % 64) ∷ os) (omega arith) (omega arith)
      ∙ ap (λ m. units m ++ unutf 0 0 os) whole
    where
      whole : (192 + n / 64 - 192) * 64 + (128 + n % 64 - 128) ≡ n
      whole = omega arith

  unutf-three :
      2048 ≤ n
      → n < 65536
      → unutf 0 0 ((224 + n / 4096) ∷ (128 + n / 64 % 64) ∷ (128 + n % 64) ∷ os)
        ≡ units n ++ unutf 0 0 os
  unfolding unutf
  unutf-three h k =
      lead-three (224 + n / 4096) ((128 + n / 64 % 64) ∷ (128 + n % 64) ∷ os) (omega arith)
        (omega arith)
      ∙ ap (λ m. units m ++ unutf 0 0 os) whole
    where
      whole :
          ((224 + n / 4096 - 224) * 64 + (128 + n / 64 % 64 - 128)) * 64 + (128 + n % 64 - 128) ≡ n
      whole = omega arith

  unutf-four :
      n < 1114112
      → unutf 0 0
          ((240 + n / 262144) ∷ (128 + n / 4096 % 64) ∷ (128 + n / 64 % 64) ∷ (128 + n % 64) ∷ os)
        ≡ units n ++ unutf 0 0 os
  unfolding unutf
  unutf-four h =
      lead-four (240 + n / 262144)
        ((128 + n / 4096 % 64) ∷ (128 + n / 64 % 64) ∷ (128 + n % 64) ∷ os) (omega arith)
      ∙ ap (λ m. units m ++ unutf 0 0 os) whole
    where
      whole :
          (((240 + n / 262144 - 240) * 64 + (128 + n / 4096 % 64 - 128)) * 64
                + (128 + n / 64 % 64 - 128))
              * 64
            + (128 + n % 64 - 128)
          ≡ n
      whole = omega arith

pub units-one : (n : ℕ) → n < 65536 → units n ≡ n ∷ []
unfolding units
units-one n h = ground arith

pub unutf-octets :
    (n : ℕ) (os : List ℕ) → n < 1114112 → unutf 0 0 (octets n ++ os) ≡ units n ++ unutf 0 0 os
unutf-octets n os h = elim (sizes n) [
  | inl a ↦ rw (octets-one n a, units-one n (omega arith)) (unutf-one n os a)
  | inr (inl (a, b)) ↦ rw (octets-two n a b) (unutf-two n os a b)
  | inr (inr (inl (a, b))) ↦ rw (octets-three n a b) (unutf-three n os a b)
  | inr (inr (inr a)) ↦ rw (octets-four n a) (unutf-four n os h)
]
