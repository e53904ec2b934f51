-- ===== src/Palette.antt =====
-- web/src/components/Topbar.tsx: the command palette, its items and its cursor, and the bell. `trim`
-- and `toLowerCase` are parameters, since they depend on Unicode.
pub mod Keys
pub mod Items
pub mod Rows
pub mod Bells
pub mod Views
mod Tests
use yafu.Base.{
  ℕ, ◌+◌, ◌-◌, zero, suc, min, ltb, leb, Bool, true, false, ◌&&◌, ◌||◌, not, Option, none, some,
  List, [], ◌∷◌, ◌++◌, map, Text, codes, ◌=t◌, truthy, includes, take, keep, length, get_elem?,
  if◌then◌else◌,
}
use yafu.ApiTypes.{
  AppKind, Application, Source, Cluster, FluxEvent, EventKind, app_kind_text, source_kind_text,
  cluster_status_text,
}
use yafu.Shell.{PageId}

pub data CommandItem : Type 0 where
  page : PageId → Text → Text → CommandItem
  app : Application → CommandItem
  source : Text → Text → Text → Text → CommandItem
  cluster : Text → Text → Text → CommandItem

abbrev pub pages : List CommandItem
pages =
    page PageId.fleet (codes "Fleet") (codes "cluster overview")
    ∷ page PageId.apps (codes "Applications") (codes "Kustomizations + HelmReleases")
    ∷ page PageId.sources (codes "Sources") (codes "Git / Helm / OCI / Bucket")
    ∷ page PageId.images (codes "Image Updates") (codes "ImagePolicies")
    ∷ page PageId.alerts (codes "Alerts") (codes "notifications + receivers")
    ∷ page PageId.events (codes "Activity") (codes "cluster events stream")
    ∷ page PageId.mobile (codes "On-call view") (codes "incident triage")
    ∷ page PageId.settings (codes "Settings") (codes "identity + preferences")
    ∷ []

-- cluster, namespace, name and kind
abbrev pub source_item : Source → CommandItem
source_item s = source s.cluster s.ns s.name (source_kind_text s.kind)

abbrev pub cluster_item : Cluster → CommandItem
cluster_item c = cluster c.id c.name (cluster_status_text c.status)

abbrev spaced : Text → Text → Text
spaced s t = s ++ b' ' ∷ t

unfoldable pub item_haystack : CommandItem → Text
item_haystack (page id label hint) = spaced label hint
item_haystack (app a) =
    spaced a.name (spaced a.ns (spaced a.cluster (spaced (app_kind_text a.kind) a.source)))
item_haystack (source c ns name kind) = spaced name (spaced ns (spaced c kind))
item_haystack (cluster id name status) = spaced name (spaced status (codes "cluster"))

abbrev pub all_items : List Application → List Source → List Cluster → List CommandItem
all_items apps sources clusters =
    pages ++ (map app apps ++ (map source_item sources ++ map cluster_item clusters))

module _ (trim lower : Text → Text) where
  unfoldable pub items_for : Text → List Application → List Source → List Cluster → List CommandItem
  unfolding item_haystack
  items_for query apps sources clusters =
      if truthy (trim query)
      then take 50 (
          keep (λ item. includes (lower (item_haystack item)) (lower query))
            (all_items apps sources clusters))
      else pages

-- What the cursor can be: it is -1 after `ArrowDown` over no items.
pub data Cursor : Type 0 where
  minus_one : Cursor
  at : ℕ → Cursor

-- The state of the palette, over the items that it shows.
pub record PaletteState : Type 0 where
  pub query : Text
  pub cursor : Cursor

abbrev pub opened : PaletteState
opened = record { query = []; cursor = at 0 }

-- `Math.min(items.length - 1, c + 1)`
unfoldable pub cursor_down : ℕ → Cursor → Cursor
cursor_down zero c = minus_one
cursor_down (suc n) minus_one = at 0
cursor_down (suc n) (at c) = at (min n (suc c))

-- `Math.max(0, c - 1)`
unfoldable pub cursor_up : Cursor → Cursor
cursor_up minus_one = at 0
cursor_up (at c) = at (c - 1)

-- the effect that clamps the cursor: `Math.max(0, items.length - 1)` where it is too large
unfoldable pub clamp : ℕ → Cursor → Cursor
clamp len minus_one = minus_one
clamp len (at c) = if leb len c then at (len - 1) else at c

pub data Key : Type 0 where
  escape arrow_down arrow_up enter other : Key

-- What choosing an item asks of the page.
pub data Chosen : Type 0 where
  navigates : PageId → Chosen
  opens : Application → Chosen

unfoldable pub choose : CommandItem → Chosen
choose (page id label hint) = navigates id
choose (app a) = opens a
choose (cluster id name status) = navigates PageId.fleet
choose (source c ns name kind) = navigates PageId.sources

-- `items[cursor]`
abbrev pub item_at : List CommandItem → Cursor → Option CommandItem
item_at items minus_one = none
item_at items (at c) = get_elem? items c

pub data KeyEffect : Type 0 where
  stays : PaletteState → KeyEffect
  closes : KeyEffect
  chooses : Chosen → KeyEffect

abbrev pub chosen_or_stays : PaletteState → Option CommandItem → KeyEffect
chosen_or_stays st none = stays st
chosen_or_stays st (some item) = chooses (choose item)

unfoldable pub on_key_down : List CommandItem → Key → PaletteState → KeyEffect
unfolding cursor_down cursor_up choose
on_key_down items escape st = closes
on_key_down items arrow_down st =
    stays (record st { cursor = cursor_down (length items) st.cursor })
on_key_down items arrow_up st = stays (record st { cursor = cursor_up st.cursor })
on_key_down items enter st = chosen_or_stays st (item_at items st.cursor)
on_key_down items other st = stays st

-- `onChange` of the input
abbrev pub type_query : Text → PaletteState → PaletteState
type_query q st = record { query = q; cursor = at 0 }

-- `onMouseEnter` of the row of an index
abbrev pub point_at : ℕ → PaletteState → PaletteState
point_at i st = record st { cursor = at i }
