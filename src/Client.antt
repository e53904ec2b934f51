-- ===== src/Client.antt =====
-- web/src/App.tsx: the callbacks that App gives to the sidebar, the bar, the pages and the drawer, and
-- its effects. `JSON` is a parameter.
pub mod Reload
mod Tests
use yafu.Base.{Bool, Option, none, List, [], ◌∷◌, Text}
use yafu.ApiTypes.{Cluster}
use yafu.AppDetail.Drawer as Drawer
use yafu.AppDetail.Drawer.{DrawerAction}
use yafu.Apps.View as AppsView
use yafu.Apps.View.{AppsAction}
use yafu.Chrome.Views as ChromeViews
use yafu.Chrome.Views.{SidebarAction}
use yafu.Dependencies.View as DepsView
use yafu.Dependencies.View.{DepsAction}
use yafu.Pages.Fleet as Fleet
use yafu.Pages.Fleet.{FleetAction}
use yafu.Pages.OnCall as OnCall
use yafu.Pages.OnCall.{CardAction}
use yafu.Palette.{Chosen, choose}
use yafu.Palette.Views as PaletteViews
use yafu.Palette.Views.{TopbarAction}
use yafu.Shell.{
  PageId, App, Storage, Codec, Change, load_prefs, update, pick_cluster, toggle_theme,
  reconcile_cluster, set_open_app, close, on_key, to_page, to_layout,
}

-- What reaches App: an action of one of its parts, a key, or a new list of clusters.
pub data Event : Type 0 where
  from_sidebar : SidebarAction → Event
  from_topbar : TopbarAction → Event
  from_fleet : FleetAction → Event
  from_apps : AppsAction → Event
  from_deps : DepsAction → Event
  from_mobile : CardAction → Event
  from_settings : Change → Event
  from_drawer : DrawerAction → Event
  from_key : Text → Event
  from_clusters : List Cluster → Event

module _ (codec : Codec) where
  -- a visit of the page, before anything happens
  abbrev pub visit : Storage → App
  visit s = record { prefs = load_prefs codec s; open_app = none; storage = s }

  module _ (writable : Bool) where
    -- App gives the sidebar no `onClusterClick`: the button of the cluster does nothing.
    abbrev pub on_sidebar : SidebarAction → App → App
    on_sidebar SidebarAction.pick_cluster st = st
    on_sidebar (SidebarAction.navigate p) st = update codec writable (to_page p) st

    -- `onNavigate` and `onOpenApp` of the bar
    abbrev pub on_chosen : Chosen → App → App
    on_chosen (Chosen.navigates p) st = update codec writable (to_page p) st
    on_chosen (Chosen.opens a) st = set_open_app a st

    abbrev pub on_topbar : TopbarAction → App → App
    on_topbar TopbarAction.toggle_theme st = toggle_theme codec writable st
    on_topbar (TopbarAction.choose_item item) st = on_chosen (choose item) st
    on_topbar _ st = st

    abbrev pub on_fleet : FleetAction → App → App
    on_fleet (FleetAction.set_layout l) st = update codec writable (to_layout l) st
    on_fleet FleetAction.refetch st = st
    on_fleet (FleetAction.pick_cluster id) st = pick_cluster codec writable id st

    -- `onOpen` of the pages that list applications
    abbrev pub on_apps : AppsAction → App → App
    on_apps (AppsAction.open_app a) st = set_open_app a st
    on_apps _ st = st

    abbrev pub on_deps : DepsAction → App → App
    on_deps (DepsAction.open_app a) st = set_open_app a st
    on_deps _ st = st

    abbrev pub on_mobile : CardAction → App → App
    on_mobile (CardAction.open_app a) st = set_open_app a st
    on_mobile _ st = st

    abbrev pub on_drawer : DrawerAction → App → App
    on_drawer DrawerAction.close st = close st
    on_drawer _ st = st

    unfoldable pub on_event : Event → App → App
    unfolding choose
    on_event (from_sidebar a) st = on_sidebar a st
    on_event (from_topbar a) st = on_topbar a st
    on_event (from_fleet a) st = on_fleet a st
    on_event (from_apps a) st = on_apps a st
    on_event (from_deps a) st = on_deps a st
    on_event (from_mobile a) st = on_mobile a st
    on_event (from_settings c) st = update codec writable c st
    on_event (from_drawer a) st = on_drawer a st
    on_event (from_key k) st = on_key k st
    on_event (from_clusters cs) st = reconcile_cluster codec writable cs st

    unfoldable pub run : List Event → App → App
    unfolding on_event
    run [] st = st
    run (e ∷ es) st = run es (on_event e st)
