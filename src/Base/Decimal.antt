-- ===== src/Base/Decimal.antt =====
-- Numbers in decimal, as `String(n)` and a template literal write a natural number.
use Prim.Native.Nat.{ℕ, zero, suc, ◌+◌, ◌-◌, ◌*◌, ◌/◌, ◌%◌, ◌<◌}
use mathlib.Core.List.{[], ◌∷◌, ◌++◌}
use mathlib.Core.Logic.{inl, inr}
use mathlib.Core.Path.{◌≡◌, refl}
use native.Mathlib.Omega.{arith}
use yafu.Base.Tests.{ltb, if◌then◌else◌, Bool-cases}
use yafu.Base.Words.{Text}

-- The fuel bounds the number of digits.
unfoldable pub digits : ℕ → ℕ → Text
digits zero n = []
digits (suc fuel) n =
    let more = digits fuel (n / 10) in
    if ltb n 10 then (48 + n) ∷ [] else more ++ (48 + n % 10) ∷ []

unfoldable pub decimal : ℕ → Text
unfolding digits
decimal n = digits (suc n) n

-- The number that digits write, read from the left.
unfoldable pub number_of : ℕ → Text → ℕ
number_of acc [] = acc
number_of acc (c ∷ s) = number_of (acc * 10 + (c - 48)) s

number_of-append :
    (acc : ℕ) (s : Text) (c : ℕ) → number_of acc (s ++ c ∷ []) ≡ number_of acc s * 10 + (c - 48)
unfolding number_of
number_of-append acc [] c = refl
number_of-append acc (d ∷ s) c = number_of-append (acc * 10 + (d - 48)) s c

number_of-digits : (fuel n : ℕ) → n < fuel → number_of 0 (digits fuel n) ≡ n
unfolding digits number_of
number_of-digits zero n h = absurd (omega arith)
number_of-digits (suc fuel) n h = elim (Bool-cases (ltb n 10)) [
  | inl e ↦ rw e one
  | inr e ↦
      rw
        (
          e,
          number_of-append 0 (digits fuel (n / 10)) (48 + n % 10),
          number_of-digits fuel (n / 10) (ground arith),
        )
        (omega arith)
]
  where
    one : number_of 0 ((48 + n) ∷ []) ≡ n
    one = omega arith

-- The fuel is enough: the digits of a number are read back as the number.
pub number_of-decimal : (n : ℕ) → number_of 0 (decimal n) ≡ n
unfolding decimal
number_of-decimal n = number_of-digits (suc n) n (omega arith)
