-- ===== src/Base/Entries.antt =====
-- JavaScript's Map from texts, as an association list in insertion order: `set` on a key that is
-- there keeps its place, and otherwise appends.
use mathlib.Core.List.{List, [], ◌∷◌}
use mathlib.Core.Logic.{inl, inr}
use mathlib.Core.Option.{Option, none, some}
use mathlib.Core.Path.{◌≡◌, refl}
use native.Mathlib.Omega.{arith}
use yafu.Base.Sets.{In}
use yafu.Base.Tests.{if◌then◌else◌}
use yafu.Base.Words.{Text, ◌=t◌, =t_iff}

abbrev pub Entries : Type 0 → Type 0
Entries V = List (Text × V)

module _ {V : Type 0} where
  -- `m.get(k)`
  unfoldable pub get : Text → Entries V → Option V
  get k [] = none
  get k ((j, v) ∷ m) = if j =t k then some v else get k m

  -- `m.set(k, v)`
  unfoldable pub put : Text → V → Entries V → Entries V
  put k v [] = (k, v) ∷ []
  put k v ((j, w) ∷ m) = if j =t k then (j, v) ∷ m else (j, w) ∷ put k v m

  -- `m.delete(k)`
  unfoldable pub remove : Text → Entries V → Entries V
  remove k [] = []
  remove k ((j, w) ∷ m) = if j =t k then m else (j, w) ∷ remove k m

  abbrev pub keys : Entries V → List Text
  keys [] = []
  keys ((j, w) ∷ m) = j ∷ keys m

  abbrev pub values : Entries V → List V
  values [] = []
  values ((j, w) ∷ m) = w ∷ values m

  -- No key occurs twice, as in every Map.
  abbrev pub Distinct : Entries V → Type 0
  Distinct [] = Unit {0}
  Distinct ((j, w) ∷ m) = (get j m ≡ none) × Distinct m

  pub get-put :
      (j k : Text) (v : V) (m : Entries V)
      → get j (put k v m) ≡ (if k =t j then some v else get j m)
  unfolding get put
  get-put j k v [] = refl
  get-put j k v ((i, w) ∷ m) = ground (arith, =t_iff k j, =t_iff i k, =t_iff i j, get-put j k v m)

  pub put-Distinct : (k : Text) (v : V) (m : Entries V) → Distinct m → Distinct (put k v m)
  unfolding put get
  put-Distinct k v [] d = (refl, tt)
  put-Distinct k v ((i, w) ∷ m) d =
      ground (arith, =t_iff k i, =t_iff i k, get-put i k v m, put-Distinct k v m d.1)

  pub get-remove :
      (j k : Text) (m : Entries V)
      → Distinct m
      → get j (remove k m) ≡ (if k =t j then none else get j m)
  unfolding get remove
  get-remove j k [] d = ground arith
  get-remove j k ((i, w) ∷ m) d =
      ground (arith, =t_iff k j, =t_iff i k, =t_iff i j, get-remove j k m d.1)

  pub remove-Distinct : (k : Text) (m : Entries V) → Distinct m → Distinct (remove k m)
  unfolding remove
  remove-Distinct k [] d = tt
  remove-Distinct k ((i, w) ∷ m) d =
      ground (arith, =t_iff k i, get-remove i k m d.1, remove-Distinct k m d.1)

  -- An entry that `get` finds is in the list, and the other way round.
  pub get-In : (k : Text) (v : V) (m : Entries V) → get k m ≡ some v → In (k, v) m
  unfolding get
  get-In k v [] h = cc
  get-In k v ((i, w) ∷ m) h = ground (arith, =t_iff i k, get-In k v m)

  pub In-get : (k : Text) (v : V) (m : Entries V) → Distinct m → In (k, v) m → get k m ≡ some v
  unfolding get
  In-get k v [] d h = elim h [ ]
  In-get k v ((i, w) ∷ m) d (inl e) = ground (arith, =t_iff i k)
  In-get k v ((i, w) ∷ m) d (inr h) = ground (arith, =t_iff i k, In-get k v m d.1 h)

  pub get-values : (k : Text) (v : V) (m : Entries V) → get k m ≡ some v → In v (values m)
  unfolding get
  get-values k v [] h = cc
  get-values k v ((i, w) ∷ m) h = ground (arith, =t_iff i k, get-values k v m)
