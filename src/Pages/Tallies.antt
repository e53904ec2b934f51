-- ===== src/Pages/Tallies.antt =====
-- web/src/pages/Sources.tsx and Activity.tsx: the counts by kind, and by source component, against
-- the number of the rows.
use yafu.Base.{
  sym, subst, keep, =t_iff, codes, ℕ, ◌+◌, ◌≡◌, refl, Bool, true, false, not, Bool-cases, Option,
  none, some, or_else, List, [], ◌∷◌, Text, ◌=t◌, has, length, if◌then◌else◌, arith, inl, inr,
}
use yafu.Base.Entries.{get-put, Entries, get, put}
use yafu.ApiTypes.{Source, FluxEvent, source_kind_text}
use yafu.Stream.{inherited_names}
use yafu.Pages.{by_kind}
use yafu.Pages.Changers.{assign, source_counts, Tally, number, written, source_or_unknown, plus_one}

abbrev pub total_of : {V : Type 0} → (V → ℕ) → Entries V → ℕ
total_of f [] = 0
total_of f ((k, v) ∷ m) = f v + total_of f m

abbrev pub itself : ℕ → ℕ
itself n = n

-- the events that a value counts
abbrev pub amount : Tally → ℕ
amount (number n) = n
amount (written t) = 0

-- The component's name is none that every object has.
abbrev pub own_name : FluxEvent → Bool
own_name e = not (has (source_or_unknown e) inherited_names)

abbrev at_key : {V : Type 0} → (V → ℕ) → Option V → ℕ
at_key f none = 0
at_key f (some v) = f v

-- what a key's new value adds, less its old one
total-put :
    {V : Type 0}
    → (f : V → ℕ) (k : Text) (v : V) (m : Entries V)
    → total_of f (put k v m) + at_key f (get k m) ≡ total_of f m + f v
unfolding get put
total-put f k v [] = omega arith
total-put f k v ((j, n) ∷ m) = elim (Bool-cases (j =t k)) [
  | inl e ↦ rw e (omega arith)
  | inr e ↦ rw e (omega (arith, total-put f k v m))
]

itself_at : (o : Option ℕ) → at_key itself o ≡ or_else o 0
itself_at none = refl
itself_at (some n) = refl

by_kind_total :
    (acc : Entries ℕ) (ss : List Source)
    → total_of itself (by_kind acc ss) ≡ total_of itself acc + length ss
unfolding by_kind
by_kind_total acc [] = omega arith
by_kind_total acc (s ∷ ss) =
    let k = source_kind_text s.kind in
    let next = or_else (get k acc) 0 + 1 in
    omega
      (arith, by_kind_total (put k next acc) ss, total-put itself k next acc, itself_at (get k acc))

proto_inherited : has (codes "__proto__") inherited_names ≡ true
unfolding ◌=t◌
proto_inherited = refl

length-keep_own :
    (e : FluxEvent) (es : List FluxEvent)
    → length (keep own_name (e ∷ es))
      ≡ (if has (source_or_unknown e) inherited_names then 0 else 1) + length (keep own_name es)
length-keep_own e es = elim (Bool-cases (has (source_or_unknown e) inherited_names)) [
  | inl t ↦ rw t (omega arith)
  | inr t ↦ rw t (omega arith)
]

-- A key holds a text exactly when it is an inherited name.
abbrev fits : Text → Option Tally → Bool
fits k none = true
fits k (some (number n)) = not (has k inherited_names)
fits k (some (written t)) = has k inherited_names

module _ (native : Text → Text) where
  fits-plus_one :
      (k : Text) (o : Option Tally) → fits k o ≡ true → fits k (some (plus_one native k o)) ≡ true
  fits-plus_one k none h = elim (Bool-cases (has k inherited_names)) [
    | inl e ↦ rw e e
    | inr e ↦ rw e (rw e refl)
  ]
  fits-plus_one k (some (number n)) h = h
  fits-plus_one k (some (written t)) h = h

  amount-plus_one :
      (k : Text) (o : Option Tally)
      → fits k o ≡ true
      → amount (plus_one native k o) ≡ at_key amount o + (if has k inherited_names then 0 else 1)
  amount-plus_one k none h = elim (Bool-cases (has k inherited_names)) [
    | inl e ↦ rw e refl
    | inr e ↦ rw e refl
  ]
  amount-plus_one k (some (number n)) h = elim (Bool-cases (has k inherited_names)) [
    | inl e ↦ let no' : false ≡ true = rw e at h in cc
    | inr e ↦ rw e refl
  ]
  amount-plus_one k (some (written t)) h = elim (Bool-cases (has k inherited_names)) [
    | inl e ↦ rw e refl
    | inr e ↦ let no' : false ≡ true = rw e at h in cc
  ]

  total-assign :
      (k : Text) (acc : Entries Tally)
      → fits k (get k acc) ≡ true
      → total_of amount (assign k (plus_one native k (get k acc)) acc)
        ≡ total_of amount acc + (if has k inherited_names then 0 else 1)
  total-assign k acc h = elim (Bool-cases (k =t codes "__proto__")) [
    | inl e ↦
        rw (e, subst (λ t. has t inherited_names ≡ true) (sym (proto e)) proto_inherited)
          (omega arith)
    | inr e ↦ rw e (
        omega (
          arith,
          total-put amount k (plus_one native k (get k acc)) acc,
          amount-plus_one k (get k acc) h,
        ))
  ]
    where
      proto : (k =t codes "__proto__") ≡ true → k ≡ codes "__proto__"
      proto e = (=t_iff k (codes "__proto__")).0 e

  pub get-assign :
      (j k : Text) (v : Tally) (acc : Entries Tally)
      → get j (assign k v acc)
        ≡ (if k =t codes "__proto__" then get j acc else (if k =t j then some v else get j acc))
  get-assign j k v acc = elim (Bool-cases (k =t codes "__proto__")) [
    | inl e ↦ rw e refl
    | inr e ↦ rw e (get-put j k v acc)
  ]

  fits-assign :
      (k : Text) (acc : Entries Tally)
      → ((j : Text) → fits j (get j acc) ≡ true)
      → (j : Text) → fits j (get j (assign k (plus_one native k (get k acc)) acc)) ≡ true
  fits-assign k acc f j = elim (Bool-cases (k =t codes "__proto__")) [
    | inl e ↦ rw e (f j)
    | inr e ↦ elim (Bool-cases (k =t j)) [
      | inl p ↦
          let q : k ≡ j = (=t_iff k j).0 p in
          rw (e, get-put j k (plus_one native k (get k acc)) acc, p)
            (subst (λ t. fits t (some (plus_one native k (get k acc))) ≡ true) q
              (fits-plus_one k (get k acc) (f k)))
      | inr p ↦ rw (e, get-put j k (plus_one native k (get k acc)) acc, p) (f j)
    ]
  ]

  source_counts_total :
      (acc : Entries Tally) (es : List FluxEvent)
      → ((k : Text) → fits k (get k acc) ≡ true)
      → total_of amount (source_counts native acc es)
        ≡ total_of amount acc + length (keep own_name es)
  unfolding source_counts
  source_counts_total acc [] f = omega arith
  source_counts_total acc (e ∷ es) f =
      let k = source_or_unknown e in
      omega (
        arith,
        source_counts_total (assign k (plus_one native k (get k acc)) acc) es (fits-assign k acc f),
        total-assign k acc (f k),
        length-keep_own e es,
      )

  -- The counts add up: those of the sources by kind to the number of the sources, and those of the
  -- events by component that are numbers to the number of the events whose component is named like
  -- none of the properties that each object inherits. The events of the others are in no number.
  pub tallies_total :
      (ss : List Source) (es : List FluxEvent)
      → (total_of itself (by_kind [] ss) ≡ length ss)
        × (total_of amount (source_counts native [] es) ≡ length (keep own_name es))
  unfolding get
  tallies_total ss es =
      (omega (arith, by_kind_total [] ss), omega (arith, source_counts_total [] es (λ k. refl)))
