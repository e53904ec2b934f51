-- ===== src/Shell/Sample.antt =====
-- web/src/App.tsx: a codec that keeps what JSON promises, for the tests.
use yafu.Base.{ℕ, ◌≡◌, refl, Option, none, some, [], ◌∷◌, Text, ◌==◌, if◌then◌else◌}
use yafu.Shell.{Theme, Density, SidebarMode, PageId, FleetLayout, Prefs, PartialPrefs, Codec}
use yafu.Shell.Stored.{IsJson}

theme_code : Theme → ℕ
theme_code Theme.light = 0
theme_code Theme.dark = 1

theme_of : ℕ → Theme
theme_of n = if n == 0 then Theme.light else Theme.dark

theme_of-code : (x : Theme) → theme_of (theme_code x) ≡ x
unfolding theme_of theme_code
theme_of-code Theme.light = refl
theme_of-code Theme.dark = refl

density_code : Density → ℕ
density_code Density.compact = 0
density_code Density.comfortable = 1

density_of : ℕ → Density
density_of n = if n == 0 then Density.compact else Density.comfortable

density_of-code : (x : Density) → density_of (density_code x) ≡ x
unfolding density_of density_code
density_of-code Density.compact = refl
density_of-code Density.comfortable = refl

sidebar_mode_code : SidebarMode → ℕ
sidebar_mode_code SidebarMode.labeled = 0
sidebar_mode_code SidebarMode.icons = 1
sidebar_mode_code SidebarMode.collapsed = 2

sidebar_mode_of : ℕ → SidebarMode
sidebar_mode_of n =
    if n == 0
    then SidebarMode.labeled
    else if n == 1
    then SidebarMode.icons
    else SidebarMode.collapsed

sidebar_mode_of-code : (x : SidebarMode) → sidebar_mode_of (sidebar_mode_code x) ≡ x
unfolding sidebar_mode_of sidebar_mode_code
sidebar_mode_of-code SidebarMode.labeled = refl
sidebar_mode_of-code SidebarMode.icons = refl
sidebar_mode_of-code SidebarMode.collapsed = refl

page_id_code : PageId → ℕ
page_id_code PageId.fleet = 0
page_id_code PageId.apps = 1
page_id_code PageId.sources = 2
page_id_code PageId.dependencies = 3
page_id_code PageId.alerts = 4
page_id_code PageId.events = 5
page_id_code PageId.images = 6
page_id_code PageId.mobile = 7
page_id_code PageId.settings = 8

page_id_of : ℕ → PageId
page_id_of n =
    if n == 0
    then PageId.fleet
    else if n == 1
    then PageId.apps
    else if n == 2
    then PageId.sources
    else if n == 3
    then PageId.dependencies
    else if n == 4
    then PageId.alerts
    else if n == 5
    then PageId.events
    else if n == 6
    then PageId.images
    else if n == 7
    then PageId.mobile
    else PageId.settings

page_id_of-code : (x : PageId) → page_id_of (page_id_code x) ≡ x
unfolding page_id_of page_id_code
page_id_of-code PageId.fleet = refl
page_id_of-code PageId.apps = refl
page_id_of-code PageId.sources = refl
page_id_of-code PageId.dependencies = refl
page_id_of-code PageId.alerts = refl
page_id_of-code PageId.events = refl
page_id_of-code PageId.images = refl
page_id_of-code PageId.mobile = refl
page_id_of-code PageId.settings = refl

fleet_layout_code : FleetLayout → ℕ
fleet_layout_code FleetLayout.cards = 0
fleet_layout_code FleetLayout.matrix = 1
fleet_layout_code FleetLayout.map = 2

fleet_layout_of : ℕ → FleetLayout
fleet_layout_of n =
    if n == 0 then FleetLayout.cards else if n == 1 then FleetLayout.matrix else FleetLayout.map

fleet_layout_of-code : (x : FleetLayout) → fleet_layout_of (fleet_layout_code x) ≡ x
unfolding fleet_layout_of fleet_layout_code
fleet_layout_of-code FleetLayout.cards = refl
fleet_layout_of-code FleetLayout.matrix = refl
fleet_layout_of-code FleetLayout.map = refl

cluster_text : Option Text → Text
cluster_text none = []
cluster_text (some id) = 1 ∷ id

cluster_of : Text → Option Text
cluster_of [] = none
cluster_of (c ∷ id) = some id

cluster_of-text : (o : Option Text) → cluster_of (cluster_text o) ≡ o
unfolding cluster_of cluster_text
cluster_of-text none = refl
cluster_of-text (some id) = refl

read : Text → Option PartialPrefs
read (a ∷ b ∷ c ∷ d ∷ e ∷ s) = some (record {
  theme = some (theme_of a);
  density = some (density_of b);
  sidebar = some (sidebar_mode_of c);
  page = some (page_id_of d);
  fleet_layout = some (fleet_layout_of e);
  cluster_id = some (cluster_of s);
})
read _ = none

write : Prefs → Text
write p =
    theme_code p.theme
    ∷ density_code p.density
    ∷ sidebar_mode_code p.sidebar
    ∷ page_id_code p.page
    ∷ fleet_layout_code p.fleet_layout
    ∷ cluster_text p.cluster_id

unfoldable pub codec : Codec
unfolding read write theme_of density_of sidebar_mode_of page_id_of fleet_layout_of cluster_of
    theme_code density_code sidebar_mode_code page_id_code fleet_layout_code cluster_text
codec = record { parse = read; stringify = write }

pub json : IsJson codec
unfolding read write codec
json = record {
  parsed_back = λ p.
      rw
        (
          theme_of-code p.theme,
          density_of-code p.density,
          sidebar_mode_of-code p.sidebar,
          page_id_of-code p.page,
          fleet_layout_of-code p.fleet_layout,
          cluster_of-text p.cluster_id,
        )
        refl;
  not_empty = λ p. refl;
}
