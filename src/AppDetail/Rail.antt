-- ===== src/AppDetail/Rail.antt =====
-- web/src/pages/AppDetail.tsx, ResourceRail: the keys move among the rows that the filter shows.
use yafu.Base.{
  ℕ, zero, suc, ◌-◌, ◌≤◌, ◌<◌, ◌≡◌, refl, sym, ap, ◌∙◌, ◌==◌, true, Bool-cases, Option, none, some,
  List, [], ◌∷◌, Text, length, get_elem?, In, arith, inl, inr,
}
use yafu.ApiTypes.{RenderResource}
use yafu.AppDetail.RenderDiff.{
  arrow_down, arrow_up, home, end, other, rail_selected, rail_shows, next_position, RailKey,
  visible_from, element_at, position_of, on_rail_key, rail_next,
}

-- A row that is listed is one of the resources, and the filter shows it.
visible_from-In :
    (lower : Text → Text) (i k : ℕ) (filter : Text) (rs : List RenderResource)
    → In k (visible_from lower i filter rs)
    → (r : RenderResource) × (i ≤ k)
      × (get_elem? rs (k - i) ≡ some r)
      × (rail_shows lower filter r ≡ true)
unfolding visible_from
visible_from-In lower i k filter [] h = elim h [ ]
visible_from-In lower i k filter (r ∷ rs) h = elim (Bool-cases (rail_shows lower filter r)) [
  | inl e ↦ from e (rw e at h) (visible_from-In lower (suc i) k filter rs)
  | inr e ↦ later (visible_from-In lower (suc i) k filter rs (rw e at h))
]
  where
    step : suc i ≤ k → k - i ≡ suc (k - suc i)
    step p = omega arith

    first : i ≡ k → k - i ≡ 0
    first p = omega arith

    later :
        (x : RenderResource) × (suc i ≤ k)
          × (get_elem? rs (k - suc i) ≡ some x)
          × (rail_shows lower filter x ≡ true)
        → (x : RenderResource) × (i ≤ k)
          × (get_elem? (r ∷ rs) (k - i) ≡ some x)
          × (rail_shows lower filter x ≡ true)
    later (x, p, q, t) = (x, omega (arith, p), ap (get_elem? (r ∷ rs)) (step p) ∙ q, t)

    from :
        rail_shows lower filter r ≡ true
        → In k (i ∷ visible_from lower (suc i) filter rs)
        → (In k (visible_from lower (suc i) filter rs)
            → (x : RenderResource) × (suc i ≤ k)
              × (get_elem? rs (k - suc i) ≡ some x)
              × (rail_shows lower filter x ≡ true))
        → (x : RenderResource) × (i ≤ k)
          × (get_elem? (r ∷ rs) (k - i) ≡ some x)
          × (rail_shows lower filter x ≡ true)
    from e (inl p) more = (r, omega (arith, p), ap (get_elem? (r ∷ rs)) (first p), e)
    from e (inr j) more = later (more j)

position_of-bound : (i : ℕ) (js : List ℕ) (p : ℕ) → position_of i js ≡ some p → p < length js
unfolding position_of
position_of-bound i [] p h = cc
position_of-bound i (j ∷ js) p h = elim (Bool-cases (j == i)) [
  | inl e ↦ first (rw e at h)
  | inr e ↦ later (position_of i js) (position_of-bound i js) (rw e at h)
]
  where
    first : some 0 ≡ some p → p < suc (length js)
    first q = let z : 0 ≡ p = cc in omega (arith, z)

    later :
        (o : Option ℕ)
        → ((m : ℕ) → o ≡ some m → m < length js)
        → next_position o ≡ some p
        → p < suc (length js)
    later none bound q = cc
    later (some m) bound q = let z : suc m ≡ p = cc in omega (arith, z, bound m refl)

some_inj : {m n : ℕ} → some m ≡ some n → m ≡ n
some_inj e = cc

rail_next-bound :
    (len pos n : ℕ) (key : RailKey) → pos < len → rail_next len pos key ≡ some n → n < len
unfolding rail_next
rail_next-bound len pos n arrow_down h e = omega (arith, some_inj e)
rail_next-bound len pos n arrow_up h e = omega (arith, some_inj e)
rail_next-bound len pos n home h e = omega (arith, some_inj e)
rail_next-bound len pos n end h e = omega (arith, some_inj e)
rail_next-bound len pos n other h e = cc

get_elem?-In : (js : List ℕ) (n : ℕ) → n < length js → (k : ℕ) × (get_elem? js n ≡ some k) × In k js
get_elem?-In [] n h = absurd (omega arith)
get_elem?-In (j ∷ js) zero h = (j, refl, inl refl)
get_elem?-In (j ∷ js) (suc n) h = let (k, e, i) = get_elem?-In js n (omega arith) in (k, e, inr i)

element_at-In :
    (js : List ℕ) (o : Option ℕ) (k : ℕ)
    → ((n : ℕ) → o ≡ some n → n < length js)
    → element_at js o ≡ some k
    → In k js
element_at-In js none k h e = cc
element_at-In js (some n) k h e =
    let (j, p, i) = get_elem?-In js n (h n refl) in
    let same : some j ≡ some k = sym p ∙ e in rw (← some_inj same) i

-- A key on a row of the rail selects, if anything, the index of a resource that the filter shows.
pub on_rail_key-shown :
    (lower : Text → Text) (filter : Text) (rs : List RenderResource) (key : RailKey) (i k : ℕ)
    → on_rail_key (visible_from lower 0 filter rs) key i ≡ some k
    → (r : RenderResource) × (get_elem? rs k ≡ some r) × (rail_shows lower filter r ≡ true)
unfolding on_rail_key
on_rail_key-shown lower filter rs key i k h =
    let (r, _, e, t) =
      visible_from-In lower 0 k filter rs (listed (position_of i visible) refl h) in
    (r, ap (get_elem? rs) whole ∙ e, t)
  where
    visible : List ℕ
    visible = visible_from lower 0 filter rs

    whole : k ≡ k - 0
    whole = omega arith

    listed :
        (o : Option ℕ)
        → position_of i visible ≡ o
        → rail_selected visible key o ≡ some k
        → In k visible
    listed none e q = cc
    listed (some pos) e q =
        element_at-In visible (rail_next (length visible) pos key) k
          (λ n. rail_next-bound (length visible) pos n key (position_of-bound i visible pos e)) q
