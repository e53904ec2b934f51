-- ===== src/Palette/Items.antt =====
-- web/src/components/Topbar.tsx: what the palette lists, and what the bell counts.
use yafu.Base.{
  ℕ, zero, suc, ◌≤◌, ◌≡◌, true, false, Bool-cases, List, [], ◌∷◌, Text, truthy, includes, take,
  keep, length, length-take, In, In-keep, In-append_left, arith, inl, inr,
}
use yafu.ApiTypes.{Application, Source, Cluster, FluxEvent}
use yafu.Palette.Bells.{is_issue, unread, Bell, recent, toggle_bell}
use yafu.Palette.{CommandItem, pages, all_items, item_haystack, items_for}

In-take : (item : CommandItem) (n : ℕ) (xs : List CommandItem) → In item (take n xs) → In item xs
In-take item zero xs i = elim i [ ]
In-take item (suc n) [] i = elim i [ ]
In-take item (suc n) (x ∷ xs) (inl e) = inl e
In-take item (suc n) (x ∷ xs) (inr i) = inr (In-take item n xs i)

module _ (trim lower : Text → Text) (query : Text) (apps : List Application) (sources : List Source)
    (clusters : List Cluster) where
  -- The palette lists at most 50 items, and each of them is a page, an application, a source or a
  -- cluster, whose text contains what was typed unless that is blank.
  pub items_for_bounds :
      (length (items_for trim lower query apps sources clusters) ≤ 50)
      × ((item : CommandItem)
          → In item (items_for trim lower query apps sources clusters)
          → In item (all_items apps sources clusters)
            × (truthy (trim query) ≡ true
                → includes (lower (item_haystack item)) (lower query) ≡ true))
  unfolding items_for
  items_for_bounds = elim (Bool-cases (truthy (trim query))) [
    | inl e ↦ rw e (at_most_50, λ item i. matched item (In-take item 50 _ i))
    | inr e ↦ rw e (omega arith, λ item i. (In-append_left item pages _ i, λ h. absurd (clash h)))
  ]
    where
      matching : List CommandItem
      matching =
          keep (λ item. includes (lower (item_haystack item)) (lower query))
            (all_items apps sources clusters)

      at_most_50 : length (take 50 matching) ≤ 50
      at_most_50 = omega (arith, length-take 50 matching)

      matched :
          (item : CommandItem)
          → In item matching
          → In item (all_items apps sources clusters)
            × (true ≡ true → includes (lower (item_haystack item)) (lower query) ≡ true)
      matched item i =
          let (j, t) =
            In-keep (λ x. includes (lower (item_haystack x)) (lower query)) item
              (all_items apps sources clusters) i in
          (j, λ h. t)

      clash : false ≡ true → ⊥
      clash h = cc

-- The bell never counts more than 8, opening it leaves nothing unread, and once 8 were seen it
-- counts nothing, whatever events come.
pub unread_bounds :
    (events later : List FluxEvent) (b : Bell)
    → (unread events b ≤ 8)
      × (b.is_open ≡ false → unread events (toggle_bell events b) ≡ 0)
      × (8 ≤ b.seen_count → unread later b ≡ 0)
unfolding toggle_bell recent
unread_bounds events later b = (
  omega (arith, length-take 8 (keep is_issue events)),
  λ h. rw h (omega arith),
  λ h. omega (arith, length-take 8 (keep is_issue later)),
)
