-- ===== src/Shell.antt =====
-- web/src/App.tsx: the preferences and where they are stored, the chosen cluster, the open
-- application, and the breadcrumbs. `JSON` is a parameter.
pub mod Stored
pub mod Sample
use yafu.Base.{
  ℕ, Bool, true, false, ◌&&◌, Option, none, some, or_else, List, [], ◌∷◌, Text, codes, ◌=t◌, truthy,
  any, find, is_some, if◌then◌else◌,
}
use yafu.ApiTypes.{Application, Cluster}

pub data Theme : Type 0 where
  light dark : Theme

pub data Density : Type 0 where
  compact comfortable : Density

pub data SidebarMode : Type 0 where
  labeled icons collapsed : SidebarMode

pub data PageId : Type 0 where
  fleet apps sources dependencies alerts events images mobile settings : PageId

pub data FleetLayout : Type 0 where
  cards matrix map : FleetLayout

pub record Prefs : Type 0 where
  pub theme : Theme
  pub density : Density
  pub sidebar : SidebarMode
  pub page : PageId
  pub fleet_layout : FleetLayout
  pub cluster_id : Option Text

abbrev pub defaults : Prefs
defaults = record {
  theme = light;
  density = compact;
  sidebar = labeled;
  page = fleet;
  fleet_layout = cards;
  cluster_id = none;
}

-- `Partial<Prefs>`: the fields that the stored object has.
pub record PartialPrefs : Type 0 where
  pub theme : Option Theme
  pub density : Option Density
  pub sidebar : Option SidebarMode
  pub page : Option PageId
  pub fleet_layout : Option FleetLayout
  pub cluster_id : Option (Option Text)

-- `{ ...DEFAULTS, ...stored }`
abbrev pub spread : PartialPrefs → Prefs
spread p = record {
  theme = or_else p.theme light;
  density = or_else p.density compact;
  sidebar = or_else p.sidebar labeled;
  page = or_else p.page fleet;
  fleet_layout = or_else p.fleet_layout cards;
  cluster_id = or_else p.cluster_id none;
}

-- `JSON.parse`, which throws at `none`, and `JSON.stringify`.
pub record Codec : Type 0 where
  pub parse : Text → Option PartialPrefs
  pub stringify : Prefs → Text

-- The browser's storage under the key of the preferences.
pub data Storage : Type 0 where
  no_window unreadable : Storage
  holds : Option Text → Storage

module _ (codec : Codec) where
  abbrev parsed : Option PartialPrefs → Prefs
  parsed none = defaults
  parsed (some p) = spread p

  unfoldable pub load_prefs : Storage → Prefs
  load_prefs no_window = defaults
  load_prefs unreadable = defaults
  load_prefs (holds raw) =
      if truthy (or_else raw []) then parsed ((codec.parse) (or_else raw [])) else defaults

  -- `writable` is false where `setItem` throws, and then nothing is stored.
  unfoldable pub save_prefs : Bool → Prefs → Storage → Storage
  save_prefs writable p no_window = no_window
  save_prefs writable p unreadable = unreadable
  save_prefs writable p (holds raw) = holds (if writable then some ((codec.stringify) p) else raw)

pub record App : Type 0 where
  pub prefs : Prefs
  pub open_app : Option Application
  pub storage : Storage

-- `update(key, value)`, where `set` puts the value under the key.
pub data Change : Type 0 where
  to_theme : Theme → Change
  to_density : Density → Change
  to_sidebar : SidebarMode → Change
  to_page : PageId → Change
  to_layout : FleetLayout → Change
  to_cluster : Text → Change

abbrev pub changed : Change → Prefs → Prefs
changed (to_theme v) p = record p { theme = v }
changed (to_density v) p = record p { density = v }
changed (to_sidebar v) p = record p { sidebar = v }
changed (to_page v) p = record p { page = v }
changed (to_layout v) p = record p { fleet_layout = v }
changed (to_cluster v) p = record p { cluster_id = some v }

abbrev pub other_theme : Theme → Theme
other_theme dark = light
other_theme light = dark

-- `stillValid`
abbrev pub is_valid : List Cluster → Option Text → Bool
is_valid clusters id = truthy (or_else id []) && any (λ c. c.id =t or_else id []) clusters

module _ (codec : Codec) (writable : Bool) where
  unfoldable pub update : Change → App → App
  unfolding save_prefs
  update c st =
      let next = changed c st.prefs in
      record st { prefs = next; storage = save_prefs codec writable next st.storage }

  -- `pickCluster` of the fleet page
  unfoldable pub pick_cluster : Text → App → App
  unfolding update
  pick_cluster id st = update (to_page apps) (update (to_cluster id) st)

  abbrev pub toggle_theme : App → App
  toggle_theme st = update (to_theme (other_theme st.prefs.theme)) st

  -- the effect that runs when the ids of the clusters change
  unfoldable pub reconcile_cluster : List Cluster → App → App
  unfolding update
  reconcile_cluster [] st = st
  reconcile_cluster (c ∷ cs) st =
      if is_valid (c ∷ cs) st.prefs.cluster_id then st else update (to_cluster c.id) st

-- `clusters.find((c) => c.id === prefs.clusterId) ?? null`
abbrev pub current_cluster : List Cluster → Option Text → Option Cluster
current_cluster clusters none = none
current_cluster clusters (some id) = find (λ c. c.id =t id) clusters

abbrev pub set_open_app : Application → App → App
set_open_app a st = record st { open_app = some a }

abbrev pub close : App → App
close st = record st { open_app = none }

-- the key handler of the window
unfoldable pub on_key : Text → App → App
on_key key st = if key =t codes "Escape" && is_some st.open_app then close st else st

abbrev name_or_all : Option Cluster → Text
name_or_all none = codes "all"
name_or_all (some c) = c.name

unfoldable pub crumbs : PageId → Option Cluster → List Text
crumbs fleet cluster = codes "flux" ∷ codes "Fleet" ∷ []
crumbs apps cluster = codes "flux" ∷ name_or_all cluster ∷ codes "Applications" ∷ []
crumbs sources cluster = codes "flux" ∷ name_or_all cluster ∷ codes "Sources" ∷ []
crumbs dependencies cluster = codes "flux" ∷ codes "Dependencies" ∷ []
crumbs alerts cluster = codes "flux" ∷ name_or_all cluster ∷ codes "Alerts" ∷ []
crumbs events cluster = codes "flux" ∷ codes "Activity" ∷ []
crumbs images cluster = codes "flux" ∷ codes "Image Updates" ∷ []
crumbs mobile cluster = codes "flux" ∷ codes "On-call view" ∷ []
crumbs settings cluster = codes "flux" ∷ codes "Settings" ∷ []
