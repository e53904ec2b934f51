-- ===== src/Apps/Selection.antt =====
-- web/src/pages/Apps.tsx: which ids are selected after each click.
use yafu.Base.{
  =t_refl, ◌≡◌, refl, ap, ◌∙◌, Bool, true, false, ◌&&◌, ◌||◌, not, Bool-cases, List, [], ◌∷◌, map,
  Text, ◌=t◌, has, add, discard, has-add, has-discard, keep, In, if◌then◌else◌, arith, inl, inr,
}
use yafu.ApiTypes.{Application}
use yafu.Apps.{
  is_visible, AppsState, filtered, visible_selected, all_visible_selected, add_ids, delete_ids,
  toggle_all, toggle_one,
}

has-add_ids :
    (id : Text) (xs : List Application) (ids : List Text)
    → has id (add_ids xs ids) ≡ (has id (map (λ a. a.id) xs) || has id ids)
unfolding add_ids
has-add_ids id [] ids = refl
has-add_ids id (a ∷ xs) ids = ground (arith, has-add_ids id xs (add a.id ids), has-add id a.id ids)

has-delete_ids :
    (id : Text) (xs : List Application) (ids : List Text)
    → has id (delete_ids xs ids) ≡ (not (has id (map (λ a. a.id) xs)) && has id ids)
unfolding delete_ids
has-delete_ids id [] ids = refl
has-delete_ids id (a ∷ xs) ids =
    ground (arith, has-delete_ids id xs (discard a.id ids), has-discard id a.id ids)

keep-const :
    (p : Application → Bool) (b : Bool) (xs : List Application)
    → ((a : Application) → In a xs → p a ≡ b)
    → keep p xs ≡ (if b then xs else [])
keep-const p true [] h = refl
keep-const p false [] h = refl
keep-const p true (x ∷ xs) h = rw (h x (inl refl), keep-const p true xs (λ a i. h a (inr i))) refl
keep-const p false (x ∷ xs) h = rw (h x (inl refl), keep-const p false xs (λ a i. h a (inr i))) refl

In-ids : (a : Application) (xs : List Application) → In a xs → has a.id (map (λ x. x.id) xs) ≡ true
In-ids a [] i = elim i [ ]
In-ids a (x ∷ xs) (inl e) = rw (e, =t_refl a.id) refl
In-ids a (x ∷ xs) (inr i) = ground (arith, In-ids a xs i)

module _ (lower : Text → Text) (apps : List Application) where
  -- The ids of the rows that the filters show.
  abbrev pub visible_ids : AppsState → List Text
  visible_ids st = map (λ a. a.id) (filtered lower apps st)

  -- The box in the header selects every visible row, or clears every visible row where all of them
  -- were selected; no row that the filters hide changes.
  pub has-toggle_all :
      (id : Text) (st : AppsState)
      → has id (toggle_all lower apps st).selected ≡ (
          if has id (visible_ids st)
          then not (all_visible_selected lower apps st)
          else has id st.selected)
  unfolding toggle_all
  has-toggle_all id st = elim (Bool-cases (all_visible_selected lower apps st)) [
    | inl e ↦ rw (e, has-delete_ids id (filtered lower apps st) st.selected) (ground arith)
    | inr e ↦ rw (e, has-add_ids id (filtered lower apps st) st.selected) (ground arith)
  ]

  filtered-toggle_all :
      (st : AppsState) → filtered lower apps (toggle_all lower apps st) ≡ filtered lower apps st
  unfolding is_visible toggle_all
  filtered-toggle_all st = refl

  -- After a click on the box in the header, the selection that counts is every visible row, or none
  -- where all of the visible rows were selected.
  pub visible_selected-toggle_all :
      (st : AppsState)
      → visible_selected lower apps (toggle_all lower apps st)
        ≡ (if not (all_visible_selected lower apps st) then filtered lower apps st else [])
  visible_selected-toggle_all st =
      ap (keep (λ a. has a.id (toggle_all lower apps st).selected)) (filtered-toggle_all st)
      ∙ keep-const (λ a. has a.id (toggle_all lower apps st).selected)
          (not (all_visible_selected lower apps st)) (filtered lower apps st) chosen
    where
      chosen :
          (a : Application)
          → In a (filtered lower apps st)
          → has a.id (toggle_all lower apps st).selected ≡ not (all_visible_selected lower apps st)
      chosen a i = has-toggle_all a.id st ∙ rw (In-ids a (filtered lower apps st) i) refl

-- A click on a row's box changes that row's selection and no other's.
pub has-toggle_one :
    (id other : Text) (st : AppsState)
    → has other (toggle_one id st).selected
      ≡ (if id =t other then not (has id st.selected) else has other st.selected)
unfolding toggle_one
has-toggle_one id other st = elim (Bool-cases (has id st.selected)) [
  | inl e ↦ rw (e, has-discard other id st.selected) (ground arith)
  | inr e ↦ rw (e, has-add other id st.selected) (ground arith)
]
