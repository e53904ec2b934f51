-- ===== src/Base/Sets.antt =====
-- Membership and universal statements over a list, by recursion.
use mathlib.Core.Bool.{Bool, true, false, ◌&&◌}
use mathlib.Core.List.{List, [], ◌∷◌, ◌++◌, map}
use mathlib.Core.Logic.{◌⊎◌, inl, inr}
use mathlib.Core.Option.{none}
use mathlib.Core.Path.{◌≡◌, refl, subst, ap}
use native.Mathlib.Omega.{arith}
use yafu.Base.Lists.{keep, any, find}
use yafu.Base.Tests.{Bool-cases}

-- The value occurs in the list; the place is kept.
abbrev pub In : {A : Type 0} → A → List A → Type 0
In a [] = ⊥
In a (x ∷ xs) = (x ≡ a) ⊎ In a xs

abbrev pub All {ℓ κ} : {A : Type ℓ} → (A → Type κ) → List A → Type κ
All P [] = Unit
All P (x ∷ xs) = P x × All P xs

module _ {A : Type 0} where
  pub In-append_left : (a : A) (xs ys : List A) → In a xs → In a (xs ++ ys)
  In-append_left a [] ys h = elim h [ ]
  In-append_left a (x ∷ xs) ys (inl e) = inl e
  In-append_left a (x ∷ xs) ys (inr h) = inr (In-append_left a xs ys h)

  pub In-append_right : (a : A) (xs ys : List A) → In a ys → In a (xs ++ ys)
  In-append_right a [] ys h = h
  In-append_right a (x ∷ xs) ys h = inr (In-append_right a xs ys h)

  pub In-append : (a : A) (xs ys : List A) → In a (xs ++ ys) → In a xs ⊎ In a ys
  In-append a [] ys h = inr h
  In-append a (x ∷ xs) ys (inl e) = inl (inl e)
  In-append a (x ∷ xs) ys (inr h) = elim (In-append a xs ys h) [
    | inl k ↦ inl (inr k)
    | inr k ↦ inr k
  ]

  -- What `keep p` retains: the entries that pass the test.
  pub In-keep : (p : A → Bool) (a : A) (xs : List A) → In a (keep p xs) → In a xs × (p a ≡ true)
  In-keep p a [] h = elim h [ ]
  In-keep p a (x ∷ xs) h = elim (Bool-cases (p x)) [
    | inl e ↦ In-keep_hit p a x xs (In-keep p a xs) e (rw e at h)
    | inr e ↦ (inr (In-keep p a xs (rw e at h)).0, (In-keep p a xs (rw e at h)).1)
  ]
    where
      In-keep_hit :
          (q : A → Bool) (b y : A) (ys : List A)
          → (In b (keep q ys) → In b ys × (q b ≡ true))
          → q y ≡ true
          → (y ≡ b) ⊎ In b (keep q ys)
          → ((y ≡ b) ⊎ In b ys) × (q b ≡ true)
      In-keep_hit q b y ys ih e (inl same) = (inl same, rw same at e)
      In-keep_hit q b y ys ih e (inr k) = (inr (ih k).0, (ih k).1)

  pub keep-In : (p : A → Bool) (a : A) (xs : List A) → In a xs → p a ≡ true → In a (keep p xs)
  keep-In p a [] h e = elim h [ ]
  keep-In p a (x ∷ xs) (inl same) e = rw (rw (← same) at e) (inl same)
  keep-In p a (x ∷ xs) (inr h) e = ground (arith, keep-In p a xs h e)

  pub any-In : (p : A → Bool) (xs : List A) → any p xs ≡ true → (a : A) × In a xs × (p a ≡ true)
  any-In p [] h = cc
  any-In p (x ∷ xs) h = elim (Bool-cases (p x)) [
    | inl e ↦ (x, inl refl, e)
    | inr e ↦ let (a, k, q) = any-In p xs (rw e at h) in (a, inr k, q)
  ]

  pub In-any : (p : A → Bool) (a : A) (xs : List A) → In a xs → p a ≡ true → any p xs ≡ true
  In-any p a [] h e = elim h [ ]
  In-any p a (x ∷ xs) (inl same) e = rw (rw (← same) at e)
  In-any p a (x ∷ xs) (inr h) e = ground (arith, In-any p a xs h e)

  pub keep-congr :
      (p q : A → Bool) (xs : List A) → ((a : A) → In a xs → p a ≡ q a) → keep p xs ≡ keep q xs
  keep-congr p q [] h = refl
  keep-congr p q (x ∷ xs) h = ground (arith, h x (inl refl), keep-congr p q xs (λ a k. h a (inr k)))

  pub keep-keep : (p q : A → Bool) (xs : List A) → keep p (keep q xs) ≡ keep (λ x. q x && p x) xs
  keep-keep p q [] = refl
  keep-keep p q (x ∷ xs) = ground (arith, keep-keep p q xs)

  pub keep-false : (p : A → Bool) (xs : List A) → ((a : A) → p a ≡ false) → keep p xs ≡ []
  keep-false p [] h = refl
  keep-false p (x ∷ xs) h = ground (arith, h x, keep-false p xs h)

  pub find-keep : (p : A → Bool) (xs : List A) → keep p xs ≡ [] → find p xs ≡ none
  find-keep p [] h = refl
  find-keep p (x ∷ xs) h = ground (arith, find-keep p xs)

module _ {κ} {A : Type 0} (P : A → Type κ) where
  pub All-In : (xs : List A) (a : A) → All P xs → In a xs → P a
  All-In [] a _ k = elim k [ ]
  All-In (x ∷ xs) a (p, h) (inl e) = subst P e p
  All-In (x ∷ xs) a (p, h) (inr k) = All-In xs a h k

module _ {A B : Type 0} where
  pub In-map : (f : A → B) (a : A) (xs : List A) → In a xs → In (f a) (map f xs)
  In-map f a [] h = elim h [ ]
  In-map f a (x ∷ xs) (inl e) = inl (ap f e)
  In-map f a (x ∷ xs) (inr h) = inr (In-map f a xs h)

  pub map-In : (f : A → B) (b : B) (xs : List A) → In b (map f xs) → (a : A) × In a xs × (f a ≡ b)
  map-In f b [] h = elim h [ ]
  map-In f b (x ∷ xs) (inl e) = (x, inl refl, e)
  map-In f b (x ∷ xs) (inr h) = let (a, k, e) = map-In f b xs h in (a, inr k, e)
