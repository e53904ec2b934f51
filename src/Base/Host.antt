-- ===== src/Base/Host.antt =====
-- A concrete host, for tests: texts compared by their code units, as a locale could compare them.
use Prim.Native.Nat.{compare, Ordering}
use mathlib.Core.Bool.{true, false}
use mathlib.Core.List.{[], ◌∷◌}
use mathlib.Core.Path.{◌≡◌, refl}
use native.Mathlib.Omega.{arith}
use yafu.Base.Sort.{Comparator, IsConsistent, before}
use yafu.Base.Words.{Text}

abbrev then_compare : Ordering → Ordering → Ordering
then_compare Ordering.eq rest = rest
then_compare first rest = first

unfoldable pub code_unit_compare : Comparator Text
code_unit_compare [] [] = Ordering.eq
code_unit_compare [] (d ∷ t) = Ordering.lt
code_unit_compare (c ∷ s) [] = Ordering.gt
code_unit_compare (c ∷ s) (d ∷ t) = then_compare (compare c d) (code_unit_compare s t)

total : (s t : Text) → before code_unit_compare s t ≡ false → before code_unit_compare t s ≡ true
unfolding code_unit_compare
total [] [] h = refl
total [] (d ∷ t) h = cc
total (c ∷ s) [] h = refl
total (c ∷ s) (d ∷ t) h = ground (arith, total s t)

trans :
    (s t u : Text)
    → before code_unit_compare s t ≡ true
    → before code_unit_compare t u ≡ true
    → before code_unit_compare s u ≡ true
unfolding code_unit_compare
trans [] t [] h k = refl
trans [] t (e ∷ u) h k = refl
trans (c ∷ s) [] u h k = cc
trans (c ∷ s) (d ∷ t) [] h k = cc
trans (c ∷ s) (d ∷ t) (e ∷ u) h k = ground (arith, trans s t u)

pub code_unit_compare-IsConsistent : IsConsistent code_unit_compare
code_unit_compare-IsConsistent = record { total = total; trans = trans }
