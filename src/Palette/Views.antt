-- ===== src/Palette/Views.antt =====
-- web/src/components/Topbar.tsx: what the bar, the palette and the bell show, and the bar's handlers.
-- `toLowerCase` and `trim` are parameters.
use yafu.Base.{
  ℕ, suc, ltb, ◌==◌, Bool, true, false, ◌||◌, Option, none, some, List, [], ◌∷◌, ◌++◌, Text, codes,
  decimal, length, if◌then◌else◌,
}
use yafu.ApiTypes.{Application, EventKind, FluxEvent}
use yafu.Markup.{is_empty, Piece, says, toned, dot, icon, row, button, input, shown, each}
use yafu.Palette.{CommandItem, Cursor, PaletteState, choose, Chosen}
use yafu.Palette.Bells.{Bell, recent, unread}
use yafu.Palette.Rows.{item_row}
use yafu.Shell.{Theme}

pub data TopbarAction : Type 0 where
  open_palette toggle_theme reconcile_all toggle_bell : TopbarAction
  close_palette : TopbarAction
  type_query : Text → TopbarAction
  choose_item : CommandItem → TopbarAction

abbrev is_dark : Theme → Bool
is_dark Theme.dark = true
is_dark Theme.light = false

abbrev pub theme_action : Theme → Text
theme_action t = if is_dark t then codes "Switch to light theme" else codes "Switch to dark theme"

-- the crumbs, a slash between two; the last one is the current page
unfoldable pub crumb_pieces : ℕ → List Text → List (Piece TopbarAction)
crumb_pieces i [] = []
crumb_pieces i (c ∷ cs) =
    shown (ltb 0 i) (says (codes "/") ∷ [])
    ++ (toned (elim cs [ [] ↦ codes "cur" | ◌∷◌ _ _ ↦ [] ]) c ∷ crumb_pieces (suc i) cs)

abbrev plain_button : Text → Text → Bool → TopbarAction → Piece TopbarAction
plain_button label title disabled action =
    button record {
      label = label;
      title = title;
      pressed = none;
      disabled = disabled;
      on_click = action;
    }

abbrev event_color : EventKind → Text
event_color EventKind.err = codes "var(--err)"
event_color _ = codes "var(--warn)"

abbrev event_pieces : FluxEvent → List (Piece TopbarAction)
event_pieces e =
    row false none
    ∷ dot (event_color e.kind)
    ∷ toned (event_color e.kind) e.reason
    ∷ says (codes "·")
    ∷ says (e.cluster ++ (codes "/" ++ e.ns))
    ∷ says e.message
    ∷ says e.object
    ∷ []

abbrev bell_list : List FluxEvent → List (Piece TopbarAction)
bell_list [] = says (codes "No warnings or errors in the last events window.") ∷ []
bell_list (e ∷ es) = each event_pieces (e ∷ es)

-- NotificationsBell: the button with its mark, and the panel
unfoldable pub bell_view : List FluxEvent → Bell → List (Piece TopbarAction)
unfolding each recent
bell_view events b =
    plain_button (codes "Notifications (" ++ (decimal (unread events b) ++ codes " unread)"))
      (if ltb 0 (unread events b)
        then decimal (unread events b) ++ codes " new"
        else codes "Notifications")
      false toggle_bell
    ∷ (shown (ltb 0 (unread events b)) (dot (codes "var(--err)") ∷ [])
        ++ shown b.is_open (says (codes "Recent issues") ∷ bell_list (recent events)))

abbrev reconcile_title : List Application → Text
reconcile_title apps =
    if is_empty apps
    then codes "No applications to reconcile"
    else codes "Reconcile every visible application (" ++ (decimal (length apps) ++ codes ")")

abbrev is_at : Cursor → ℕ → Bool
is_at Cursor.minus_one i = false
is_at (Cursor.at c) i = c == i

module _ (lower : Text → Text) where
  abbrev item_pieces : Cursor → ℕ → CommandItem → List (Piece TopbarAction)
  item_pieces cursor i item =
      row (is_at cursor i) (some (choose_item item))
      ∷ toned (item_row lower item).tone (item_row lower item).badge
      ∷ says (item_row lower item).title
      ∷ says (item_row lower item).subtitle
      ∷ []

  unfoldable pub item_list : Cursor → ℕ → List CommandItem → List (Piece TopbarAction)
  unfolding item_row
  item_list cursor i [] = []
  item_list cursor i (item ∷ items) = item_pieces cursor i item ++ item_list cursor (suc i) items

  abbrev matches : Cursor → List CommandItem → List (Piece TopbarAction)
  matches cursor [] = says (codes "no matches") ∷ []
  matches cursor (item ∷ items) = item_list cursor 0 (item ∷ items)

  -- CommandPalette, over the items that it shows
  unfoldable pub palette_view : PaletteState → List CommandItem → List (Piece TopbarAction)
  unfolding item_list
  palette_view st items =
      icon (codes "search")
      ∷ input (codes "Type to filter apps, sources, clusters, pages…") st.query type_query
      ∷ says (codes "esc")
      ∷ (matches st.cursor items
          ++ (says (codes "↑↓ navigate · ⏎ select · esc close")
              ∷ says (decimal (length items) ++ codes " results")
              ∷ []))

-- the bar without the palette
unfoldable pub topbar_view :
    List Text → Theme → List Application → Bool → List FluxEvent → Bell → List (Piece TopbarAction)
unfolding crumb_pieces bell_view
topbar_view crumbs theme apps pending events b =
    crumb_pieces 0 crumbs
    ++ (plain_button (codes "Search apps, resources, clusters…") (codes "Open command palette")
          false open_palette
        ∷ plain_button [] (theme_action theme) false toggle_theme
        ∷ icon (if is_dark theme then codes "sun" else codes "moon")
        ∷ (bell_view events b
            ++ (plain_button (if pending then codes "Reconciling…" else codes "Reconcile all")
                  (reconcile_title apps) (is_empty apps || pending) reconcile_all
                ∷ [])))

-- Topbar: what an action asks of the page, and whether the palette is open after it
pub record TopbarEffect : Type 0 where
  pub palette_open : Bool
  pub asked : Option Chosen

unfoldable pub on_topbar_action : TopbarAction → Bool → TopbarEffect
unfolding choose
on_topbar_action open_palette o = record { palette_open = true; asked = none }
on_topbar_action close_palette o = record { palette_open = false; asked = none }
on_topbar_action (choose_item item) o = record { palette_open = false; asked = some (choose item) }
on_topbar_action _ o = record { palette_open = o; asked = none }
