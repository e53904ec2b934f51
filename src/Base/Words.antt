-- ===== src/Base/Words.antt =====
-- Texts as lists of UTF-16 code units, and the operations of JavaScript's String that the
-- program uses on them.
use Prim.Native.Char.{code}
use Prim.Native.Nat.{ℕ, suc}
use Prim.Native.String.{String}
use mathlib.Core.Bool.{Bool, true, false, ◌&&◌, ◌||◌, not}
use mathlib.Core.List.{List, [], ◌∷◌, ◌++◌}
use mathlib.Core.Logic.{◌↔◌, ◌≢◌}
use mathlib.Core.Option
use mathlib.Core.Option.{Option, none, some}
use mathlib.Core.Path.{◌≡◌, refl, ap₂}
use native.Mathlib.Omega.{arith}
use yafu.Base.Sets.{All}
use yafu.Base.Tests.{◌==◌, if◌then◌else◌}

abbrev pub Text : Type 0
Text = List ℕ

-- A literal, whose code units are its code points: the source's literals are ASCII, or say so.
abbrev pub codes : String → Text
codes String.[] = []
codes (String.◌∷◌ c s) = code c ∷ codes s

infix 50 ◌=t◌
unfoldable pub ◌=t◌ : Text → Text → Bool
[] =t [] = true
[] =t (d ∷ t) = false
(c ∷ s) =t [] = false
(c ∷ s) =t (d ∷ t) = (c == d) && (s =t t)

pub =t_refl : (s : Text) → (s =t s) ≡ true
unfolding ◌=t◌
=t_refl [] = refl
=t_refl (c ∷ s) = ground (arith, =t_refl s)

pub =t_eq : (s t : Text) → (s =t t) ≡ true → s ≡ t
unfolding ◌=t◌
=t_eq [] [] h = refl
=t_eq [] (d ∷ t) h = cc
=t_eq (c ∷ s) [] h = cc
=t_eq (c ∷ s) (d ∷ t) h = ground (arith, =t_eq s t)

pub =t_iff : (s t : Text) → ((s =t t) ≡ true) ↔ (s ≡ t)
=t_iff s t = (=t_eq s t, λ e. rw e (=t_refl t))

pub =t_ne : (s t : Text) → (s =t t) ≡ false → s ≢ t
=t_ne s t h e = let same : (s =t t) ≡ true = rw e (=t_refl t) in cc

-- `s` tested for truth: the empty text is false.
abbrev pub truthy : Text → Bool
truthy [] = false
truthy (c ∷ s) = true

-- `xs.includes(s)` and `xs.has(s)` for a list of texts
abbrev pub has : Text → List Text → Bool
has s [] = false
has s (t ∷ ts) = (t =t s) || has s ts

unfoldable pub starts_with : Text → Text → Bool
starts_with s [] = true
starts_with [] (d ∷ p) = false
starts_with (c ∷ s) (d ∷ p) = (c == d) && starts_with s p

-- `s.includes(p)`
unfoldable pub includes : Text → Text → Bool
unfolding starts_with
includes [] p = starts_with [] p
includes (c ∷ s) p = starts_with (c ∷ s) p || includes s p

-- `parts.join(sep)`
unfoldable pub join : Text → List Text → Text
join sep [] = []
join sep (p ∷ []) = p
join sep (p ∷ q ∷ ps) = p ++ (sep ++ join sep (q ∷ ps))

-- The code unit does not occur.
abbrev pub Lacks : ℕ → Text → Type 0
Lacks d = All (λ c. c ≢ d)

-- A text is cut at the first separator in one way only.
pub cut_unique :
    (d : ℕ) (p q r t : Text) → Lacks d p → Lacks d q → p ++ d ∷ r ≡ q ++ d ∷ t → (p ≡ q) × (r ≡ t)
cut_unique d [] [] r t hp hq e = (refl, cc)
cut_unique d [] (c ∷ q) r t hp (h, hq) e = absurd (h (cc))
cut_unique d (c ∷ p) [] r t (h, hp) hq e = absurd (h (cc))
cut_unique d (b ∷ p) (c ∷ q) r t (_, hp) (_, hq) e =
    let (u, v) = cut_unique d p q r t hp hq (cc) in (ap₂ ◌∷◌ (cc) u, v)

-- `s.indexOf(d)` for a single code unit; `none` stands for -1.
unfoldable pub index_of : ℕ → Text → Option ℕ
index_of d [] = none
index_of d (c ∷ s) = if c == d then some 0 else Option.map suc (index_of d s)

-- `set.add(s)` and `set.delete(s)`: a Set of texts is a list without repetitions, oldest first.
unfoldable pub add : Text → List Text → List Text
add s ts = if has s ts then ts else ts ++ s ∷ []

unfoldable pub discard : Text → List Text → List Text
discard s [] = []
discard s (t ∷ ts) = if t =t s then discard s ts else t ∷ discard s ts

pub has-append : (s : Text) (ts us : List Text) → has s (ts ++ us) ≡ (has s ts || has s us)
has-append s [] us = refl
has-append s (t ∷ ts) us = ground (arith, has-append s ts us)

pub has-add : (s t : Text) (ts : List Text) → has s (add t ts) ≡ ((t =t s) || has s ts)
unfolding add
has-add s t ts = ground (arith, has-append s ts (t ∷ []), =t_iff t s)

pub has-discard : (s t : Text) (ts : List Text) → has s (discard t ts) ≡ (not (t =t s) && has s ts)
unfolding discard
has-discard s t [] = ground arith
has-discard s t (u ∷ ts) = ground (arith, has-discard s t ts, =t_iff u t, =t_iff u s, =t_iff t s)
