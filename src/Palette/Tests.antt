-- ===== src/Palette/Tests.antt =====
-- web/src/components/Topbar.tsx: runs at concrete inputs.
use yafu.Base.{
  ◌≡◌, ◌≤◌, ◌⊎◌, refl, true, some, [], ◌∷◌, Text, codes, truthy, starts_with, includes, length, In,
  arith,
}
use yafu.Shell.{PageId}
use yafu.Palette.{
  CommandItem, PaletteState, at, cursor_down, clamp, stays, closes, chooses, choose, item_at,
  on_key_down, arrow_down, enter, opened, pages, all_items, item_haystack, items_for,
}
use yafu.Palette.Keys.{InRange, on_key_down-InRange, clamp_lost}
use yafu.Palette.Items.{items_for_bounds}

-- The texts of these tests are in lower case and have no blanks at their ends.
abbrev same : Text → Text
same t = t

abbrev helm : CommandItem
helm = CommandItem.page PageId.sources (codes "Sources") (codes "Git / Helm / OCI / Bucket")

typed-items_for : items_for same same (codes "Helm /") [] [] [] ≡ helm ∷ []
unfolding items_for item_haystack starts_with includes
typed-items_for = refl

opened_on_pages : InRange pages opened.cursor
opened_on_pages = omega arith

on_key_down-InRange_example :
    (on_key_down pages arrow_down opened ≡ closes)
    ⊎ (((item : CommandItem) × In item pages
          × (item_at pages opened.cursor ≡ some item)
          × (on_key_down pages arrow_down opened ≡ chooses (choose item)))
        ⊎ ((u : PaletteState) × (on_key_down pages arrow_down opened ≡ stays u)
            × InRange pages u.cursor))
on_key_down-InRange_example = on_key_down-InRange pages arrow_down opened opened_on_pages

abbrev lost : PaletteState
lost = record { query = codes "zzz"; cursor = clamp (length pages) (cursor_down 0 (at 0)) }

clamp_lost_example : on_key_down pages enter lost ≡ stays lost
clamp_lost_example = clamp_lost (at 0) pages lost refl

items_for_bounds_example :
    (length (items_for same same (codes "Helm") [] [] []) ≤ 50)
    × ((item : CommandItem)
        → In item (items_for same same (codes "Helm") [] [] [])
        → In item (all_items [] [] [])
          × (truthy (same (codes "Helm")) ≡ true
              → includes (same (item_haystack item)) (same (codes "Helm")) ≡ true))
items_for_bounds_example = items_for_bounds same same (codes "Helm") [] [] []
