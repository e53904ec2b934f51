-- ===== src/Palette/Keys.antt =====
-- web/src/components/Topbar.tsx: the cursor of the palette stays on an item, and Enter chooses it.
use yafu.Base.{
  ◌⊎◌, ℕ, zero, suc, ◌<◌, ◌≡◌, refl, leb, true, false, Bool-cases, some, List, [], ◌∷◌, length,
  get_elem?, In, arith, inl, inr,
}
use yafu.Palette.{
  CommandItem, PaletteState, Cursor, minus_one, at, cursor_down, cursor_up, clamp, Key, stays,
  closes, chooses, choose, item_at, chosen_or_stays, on_key_down, enter, arrow_down, arrow_up,
  escape, other,
}

-- The cursor is on one of the items.
abbrev pub InRange : List CommandItem → Cursor → Type 0
InRange items minus_one = ⊥
InRange items (at c) = c < length items

cursor_down-InRange :
    (items : List CommandItem) (c : Cursor)
    → InRange items c
    → InRange items (cursor_down (length items) c)
unfolding cursor_down
cursor_down-InRange [] (at c) h = absurd (omega arith)
cursor_down-InRange (x ∷ items) (at c) h = omega arith
cursor_down-InRange items minus_one h = elim h [ ]

cursor_up-InRange :
    (items : List CommandItem) (c : Cursor) → InRange items c → InRange items (cursor_up c)
unfolding cursor_up
cursor_up-InRange items (at c) h = omega arith
cursor_up-InRange items minus_one h = elim h [ ]

pub get_elem?-In :
    (items : List CommandItem) (c : ℕ)
    → c < length items
    → (item : CommandItem) × (get_elem? items c ≡ some item) × In item items
get_elem?-In [] c h = absurd (omega arith)
get_elem?-In (x ∷ items) zero h = (x, refl, inl refl)
get_elem?-In (x ∷ items) (suc c) h =
    let (item, e, i) = get_elem?-In items c (omega arith) in (item, e, inr i)

enter-chooses :
    (items : List CommandItem) (st : PaletteState)
    → InRange items st.cursor
    → (item : CommandItem) × In item items
      × (item_at items st.cursor ≡ some item)
      × (on_key_down items enter st ≡ chooses (choose item))
unfolding on_key_down
enter-chooses items st h = chosen st.cursor h refl
  where
    chosen :
        (c : Cursor)
        → InRange items c
        → st.cursor ≡ c
        → (item : CommandItem) × In item items
          × (item_at items st.cursor ≡ some item)
          × (chosen_or_stays st (item_at items st.cursor) ≡ chooses (choose item))
    chosen minus_one k e = elim k [ ]
    chosen (at c) k e =
        let (item, p, i) = get_elem?-In items c k in (item, i, rw e p, rw (e, p) refl)

-- While the cursor is on an item, each key either closes the palette, or chooses the item under the
-- cursor, or leaves the cursor on an item.
pub on_key_down-InRange :
    (items : List CommandItem) (key : Key) (st : PaletteState)
    → InRange items st.cursor
    → (on_key_down items key st ≡ closes)
      ⊎ (((item : CommandItem) × In item items
            × (item_at items st.cursor ≡ some item)
            × (on_key_down items key st ≡ chooses (choose item)))
          ⊎ ((u : PaletteState) × (on_key_down items key st ≡ stays u) × InRange items u.cursor))
unfolding on_key_down
on_key_down-InRange items escape st h = inl refl
on_key_down-InRange items arrow_down st h = inr (
    inr (
      record st { cursor = cursor_down (length items) st.cursor },
      refl,
      cursor_down-InRange items st.cursor h,
    ))
on_key_down-InRange items arrow_up st h =
    inr
      (inr (record st { cursor = cursor_up st.cursor }, refl, cursor_up-InRange items st.cursor h))
on_key_down-InRange items enter st h = inr (inl (enter-chooses items st h))
on_key_down-InRange items other st h = inr (inr (st, refl, h))

-- When the list changes to one that is not empty, the clamping effect puts a cursor that is not -1
-- on an item, and leaves it alone where it is on one.
pub clamp-InRange :
    (items : List CommandItem) (c : ℕ)
    → 0 < length items
    → InRange items (clamp (length items) (at c))
      × (c < length items → clamp (length items) (at c) ≡ at c)
unfolding clamp
clamp-InRange items c h = elim (Bool-cases (leb (length items) c)) [
  | inl e ↦ rw e (omega (arith, h), λ k. absurd (large e k))
  | inr e ↦ rw e (small e, λ k. refl)
]
  where
    large : leb (length items) c ≡ true → c < length items → ⊥
    large e k = ground arith

    small : leb (length items) c ≡ false → c < length items
    small e = ground arith

-- After ArrowDown over an empty list the cursor is lost: whatever list comes next, the clamping
-- effect does not bring it back, and Enter chooses nothing.
pub clamp_lost :
    (c : Cursor) (items : List CommandItem) (st : PaletteState)
    → st.cursor ≡ clamp (length items) (cursor_down 0 c)
    → on_key_down items enter st ≡ stays st
unfolding clamp cursor_down on_key_down
clamp_lost c items st e = rw e refl
