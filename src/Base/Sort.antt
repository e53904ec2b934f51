-- ===== src/Base/Sort.antt =====
-- `Array.prototype.sort` with a comparator: the stable sorted arrangement, computed by insertion.
use Prim.Native.Nat.{Ordering}
use mathlib.Core.Bool.{Bool, true, false, not}
use mathlib.Core.List.{List, [], ◌∷◌, ◌++◌, Perm, perm_middle}
use mathlib.Core.List.Perm
use mathlib.Core.Logic.{◌⊎◌, inl, inr}
use mathlib.Core.Path.{◌≡◌, refl}
use native.Mathlib.Omega.{arith}
use yafu.Base.Lists.{keep, length}
use yafu.Base.Sets.{In, All}
use yafu.Base.Tests.{if◌then◌else◌, Bool-cases}

-- The sign of a comparator's result: what `sort` reads of it.
abbrev pub Comparator : Type 0 → Type 0
Comparator A = A → A → Ordering

abbrev pub is_gt : Ordering → Bool
is_gt Ordering.gt = true
is_gt _ = false

module _ {A : Type 0} (cmp : Comparator A) where
  -- `a` may stand before `b`.
  abbrev pub before : A → A → Bool
  before a b = elim (cmp a b) [ Ordering.gt ↦ false | _ ↦ true ]

  -- A total preorder: what `sort` asks of a comparator for its result to be determined.
  pub record IsConsistent : Type 0 where
    pub total : (a b : A) → before a b ≡ false → before b a ≡ true
    pub trans : (a b c : A) → before a b ≡ true → before b c ≡ true → before a c ≡ true

  place : A → List A → List A
  place x [] = x ∷ []
  place x (y ∷ ys) = if before x y then x ∷ y ∷ ys else y ∷ place x ys

  unfoldable pub sort : List A → List A
  unfolding place
  sort [] = []
  sort (x ∷ xs) = place x (sort xs)

  -- Every entry may stand before all that follow it.
  abbrev pub IsSorted : List A → Type 0
  IsSorted [] = Unit {0}
  IsSorted (x ∷ xs) = All (λ y. before x y ≡ true) xs × IsSorted xs

  place-perm : (x : A) (xs : List A) → Perm (place x xs) (x ∷ xs)
  unfolding place
  place-perm x [] = Perm.refl (x ∷ [])
  place-perm x (y ∷ ys) = elim (Bool-cases (before x y)) [
    | inl e ↦ rw e (Perm.refl (x ∷ y ∷ ys))
    | inr e ↦ rw e (Perm.trans (Perm.cons y (place-perm x ys)) (Perm.swap x y ys))
  ]

  -- Sorting loses no entry and makes none up.
  pub sort-perm : (xs : List A) → Perm (sort xs) xs
  unfolding sort
  sort-perm [] = Perm.refl []
  sort-perm (x ∷ xs) = Perm.trans (place-perm x (sort xs)) (Perm.cons x (sort-perm xs))

  place-In : (a x : A) (xs : List A) → In a (place x xs) → (x ≡ a) ⊎ In a xs
  unfolding place
  place-In a x [] h = h
  place-In a x (y ∷ ys) h = ground (arith, place-In a x ys)

  In-place : (a x : A) (xs : List A) → (x ≡ a) ⊎ In a xs → In a (place x xs)
  unfolding place
  In-place a x [] h = h
  In-place a x (y ∷ ys) h = ground (arith, In-place a x ys)

  pub sort-In : (a : A) (xs : List A) → In a (sort xs) → In a xs
  unfolding sort
  sort-In a [] h = h
  sort-In a (x ∷ xs) h = ground (arith, place-In a x (sort xs) h, sort-In a xs)

  pub In-sort : (a : A) (xs : List A) → In a xs → In a (sort xs)
  unfolding sort
  In-sort a [] h = h
  In-sort a (x ∷ xs) (inl e) = In-place a x (sort xs) (inl e)
  In-sort a (x ∷ xs) (inr h) = In-place a x (sort xs) (inr (In-sort a xs h))

  length-place : (x : A) (xs : List A) → length (place x xs) ≡ length (x ∷ xs)
  unfolding place
  length-place x [] = refl
  length-place x (y ∷ ys) = ground (arith, length-place x ys)

  pub length-sort : (xs : List A) → length (sort xs) ≡ length xs
  unfolding sort
  length-sort [] = refl
  length-sort (x ∷ xs) = omega (arith, length-place x (sort xs), length-sort xs)

module _ {A : Type 0} (cmp : Comparator A) (c : IsConsistent cmp) where
  All-before :
      (x y : A) (ys : List A)
      → before cmp x y ≡ true
      → All (λ z. before cmp y z ≡ true) ys
      → All (λ z. before cmp x z ≡ true) ys
  All-before x y [] h _ = tt
  All-before x y (z ∷ zs) h (k, ks) = (c.trans x y z h k, All-before x y zs h ks)

  place-All :
      (x y : A) (ys : List A)
      → before cmp y x ≡ true
      → All (λ z. before cmp y z ≡ true) ys
      → All (λ z. before cmp y z ≡ true) (place cmp x ys)
  unfolding place
  place-All x y [] h _ = (h, tt)
  place-All x y (z ∷ zs) h (k, ks) = ground (arith, place-All x y zs h ks)

  place-IsSorted : (x : A) (xs : List A) → IsSorted cmp xs → IsSorted cmp (place cmp x xs)
  unfolding place
  place-IsSorted x [] s = (tt, tt)
  place-IsSorted x (y ∷ ys) (k, s) = elim (Bool-cases (before cmp x y)) [
    | inl e ↦ rw e ((e, All-before x y ys e k), (k, s))
    | inr e ↦ rw e (place-All x y ys (c.total x y e) k, place-IsSorted x ys s)
  ]

  pub sort-IsSorted : (xs : List A) → IsSorted cmp (sort cmp xs)
  unfolding sort
  sort-IsSorted [] = tt
  sort-IsSorted (x ∷ xs) = place-IsSorted x (sort cmp xs) (sort-IsSorted xs)

  -- A class of entries of which each may stand before each other keeps its order: stability.
  module _ (p : A → Bool) (same : (a b : A) → p a ≡ true → p b ≡ true → before cmp a b ≡ true) where
    keep-place : (x : A) (xs : List A) → keep p (place cmp x xs) ≡ keep p (x ∷ xs)
    unfolding place
    keep-place x [] = refl
    keep-place x (y ∷ ys) = ground (arith, keep-place x ys, same x y)

    pub keep-sort : (xs : List A) → keep p (sort cmp xs) ≡ keep p xs
    unfolding sort
    keep-sort [] = refl
    keep-sort (x ∷ xs) = ground (arith, keep-place x (sort cmp xs), keep-sort xs)

module _ {A : Type 0} where
  pub keep-perm : (p : A → Bool) (xs : List A) → Perm (keep p xs ++ keep (λ x. not (p x)) xs) xs
  keep-perm p [] = Perm.refl []
  keep-perm p (x ∷ xs) = elim (Bool-cases (p x)) [
    | inl e ↦ rw e (Perm.cons x (keep-perm p xs))
    | inr e ↦ rw e (
        Perm.trans (perm_middle (keep p xs) (keep (λ y. not (p y)) xs))
          (Perm.cons x (keep-perm p xs)))
  ]
