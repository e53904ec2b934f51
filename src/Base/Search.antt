-- ===== src/Base/Search.antt =====
-- Finding a code unit in a text: `index_of` and the pieces that `slice` cuts there.
use Prim.Native.Nat.{ℕ, zero, suc}
use mathlib.Core.Bool.{false}
use mathlib.Core.List.{[], ◌∷◌, ◌++◌}
use mathlib.Core.Option.{none, some}
use mathlib.Core.Path.{◌≡◌, refl, ap}
use native.Mathlib.Omega.{arith}
use yafu.Base.Lists.{take, drop}
use yafu.Base.Tests.{◌==◌}
use yafu.Base.Words.{Text, index_of, Lacks}

pub index_of-append :
    (d : ℕ) (p t : Text)
    → Lacks d p
    → (i : ℕ) × (index_of d (p ++ d ∷ t) ≡ some i)
      × (take i (p ++ d ∷ t) ≡ p)
      × (drop (suc i) (p ++ d ∷ t) ≡ t)
unfolding index_of
index_of-append d [] t h = (0, ground arith, refl, refl)
index_of-append d (c ∷ p) t (h, hp) =
    let (i, e, u, v) = index_of-append d p t hp in (suc i, ground arith, ap (◌∷◌ c) u, v)

pub index_of-eq-none : (d : ℕ) (s : Text) → Lacks d s → index_of d s ≡ none
unfolding index_of
index_of-eq-none d [] h = refl
index_of-eq-none d (c ∷ s) (h, hs) = ground (arith, index_of-eq-none d s hs)

pub some-index_of :
    (d i : ℕ) (s : Text)
    → index_of d s ≡ some i
    → Lacks d (take i s) × (s ≡ take i s ++ d ∷ drop (suc i) s)
unfolding index_of
some-index_of d i [] h = cc
some-index_of d zero (c ∷ s) h = (tt, ground arith)
some-index_of d (suc i) (c ∷ s) h =
    let k : (c == d) ≡ false = ground arith in
    let (u, v) = some-index_of d i s (ground arith) in ((ground arith, u), ap (◌∷◌ c) v)
