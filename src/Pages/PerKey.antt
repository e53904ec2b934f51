-- ===== src/Pages/PerKey.antt =====
-- web/src/pages/Activity.tsx: what the counts of the events hold at each component.
use yafu.Base.{
  append-nil, ℕ, zero, suc, ◌+◌, ◌≡◌, ◌∙◌, refl, ap, sym, true, false, Bool-cases, Option, none,
  some, List, [], ◌∷◌, ◌++◌, append_assoc, Text, codes, ◌=t◌, =t_iff, has, if◌then◌else◌, arith,
  inl, inr,
}
use yafu.Base.Entries.{Entries, get}
use yafu.ApiTypes.{FluxEvent}
use yafu.Stream.{inherited_names}
use yafu.Pages.Changers.{Tally, number, written, source_counts, source_or_unknown, plus_one, assign}
use yafu.Pages.Tallies.{get-assign}

-- How many of the events name the component.
abbrev pub occurrences : Text → List FluxEvent → ℕ
occurrences k [] = 0
occurrences k (e ∷ es) =
    if source_or_unknown e =t k then suc (occurrences k es) else occurrences k es

abbrev pub ones : ℕ → Text
ones zero = []
ones (suc n) = codes "1" ++ ones n

module _ (native : Text → Text) where
  -- What stands at a component that `n` events name.
  abbrev pub held : Text → ℕ → Option Tally
  held k zero = none
  held k (suc n) =
      if k =t codes "__proto__"
      then none
      else if has k inherited_names
      then some (written (native k ++ ones (suc n)))
      else some (number (suc n))

  abbrev once_more : Text → Option Tally → Option Tally
  once_more k o = if k =t codes "__proto__" then o else some (plus_one native k o)

  -- what `n` more events make of what a key holds
  abbrev more : Text → ℕ → Option Tally → Option Tally
  more k zero o = o
  more k (suc n) o = more k n (once_more k o)

  get-assign_next :
      (j k : Text) (acc : Entries Tally)
      → get k (assign j (plus_one native j (get j acc)) acc)
        ≡ (if j =t k then once_more k (get k acc) else get k acc)
  get-assign_next j k acc = elim (Bool-cases (j =t k)) [
    | inr e ↦
        rw (get-assign native k j (plus_one native j (get j acc)) acc, e)
          (elim (Bool-cases (j =t codes "__proto__")) [ inl p ↦ rw p refl | inr p ↦ rw p refl ])
    | inl e ↦
        rw (get-assign native k j (plus_one native j (get j acc)) acc, e, (=t_iff j k).0 e) refl
  ]

  get-source_counts_from :
      (k : Text) (acc : Entries Tally) (es : List FluxEvent)
      → get k (source_counts native acc es) ≡ more k (occurrences k es) (get k acc)
  unfolding source_counts
  get-source_counts_from k acc [] = refl
  get-source_counts_from k acc (e ∷ es) =
      let j = source_or_unknown e in
      get-source_counts_from k (assign j (plus_one native j (get j acc)) acc) es
      ∙ elim (Bool-cases (j =t k)) [
        | inl h ↦ rw (get-assign_next j k acc, h) refl
        | inr h ↦ rw (get-assign_next j k acc, h) refl
      ]

  more-proto : (k : Text) (n : ℕ) → (k =t codes "__proto__") ≡ true → more k n none ≡ none
  more-proto k zero p = refl
  more-proto k (suc n) p = rw p (more-proto k n p)

  more-written :
      (k : Text) (n : ℕ) (t : Text)
      → (k =t codes "__proto__") ≡ false
      → more k n (some (written t)) ≡ some (written (t ++ ones n))
  more-written k zero t p = ap (λ x. some (written x)) (sym (append-nil t))
  more-written k (suc n) t p = rw p (
      more-written k n (t ++ codes "1") p
      ∙ ap (λ x. some (written x)) (append_assoc t (codes "1") (ones n)))

  more-number :
      (k : Text) (n m : ℕ)
      → (k =t codes "__proto__") ≡ false
      → more k n (some (number m)) ≡ some (number (m + n))
  more-number k zero m p = ap (λ x. some (number x)) (omega arith)
  more-number k (suc n) m p =
      rw p (more-number k n (m + 1) p ∙ ap (λ x. some (number x)) (omega arith))

  more-held : (k : Text) (n : ℕ) → more k n none ≡ held k n
  more-held k zero = refl
  more-held k (suc n) = elim (Bool-cases (k =t codes "__proto__")) [
    | inl p ↦ rw p (more-proto k n p)
    | inr p ↦ elim (Bool-cases (has k inherited_names)) [
      | inl i ↦
          rw (p, i)
            (more-written k n (native k ++ codes "1") p
              ∙ ap (λ x. some (written x)) (append_assoc (native k) (codes "1") (ones n)))
      | inr i ↦ rw (p, i) (more-number k n 1 p ∙ ap (λ x. some (number x)) (omega arith))
    ]
  ]

  -- At each component the counts hold the number of the events that name it, or nothing if none does;
  -- but a component named like a property that each object inherits has a text, of what the engine
  -- writes of that property and one digit 1 for each of the events, and `__proto__` has nothing.
  pub get-source_counts :
      (k : Text) (es : List FluxEvent)
      → get k (source_counts native [] es) ≡ held k (occurrences k es)
  unfolding get
  get-source_counts k es = get-source_counts_from k [] es ∙ more-held k (occurrences k es)
