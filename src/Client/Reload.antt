-- ===== src/Client/Reload.antt =====
-- web/src/App.tsx: what the next visit of the page finds.
use yafu.Apps.View.{AppsAction}
use yafu.AppDetail.Drawer.{DrawerAction}
use yafu.Dependencies.View.{DepsAction}
use yafu.Pages.OnCall.{CardAction}
use yafu.Pages.Fleet.{FleetAction}
use yafu.Chrome.Views.{SidebarAction}
use yafu.Palette.Views.{TopbarAction}
use yafu.Base.{
  codes, ◌=t◌, ◌&&◌, is_some, ◌≡◌, refl, true, Bool-cases, none, some, Option, List, [], ◌∷◌, Text,
  inl, inr,
}
use yafu.ApiTypes.{Application, Cluster}
use yafu.Palette.{Chosen, choose}
use yafu.Shell.{
  pick_cluster, App, Codec, Change, holds, load_prefs, save_prefs, update, reconcile_cluster,
  is_valid, to_cluster, to_layout, to_page, to_theme, other_theme, PageId, changed, on_key,
}
use yafu.Shell.Stored.{IsJson, load_prefs-update}
use yafu.Client.{
  from_clusters, from_key, from_drawer, from_settings, from_mobile, from_deps, from_apps,
  from_fleet, on_mobile, on_apps, from_topbar, on_deps, on_drawer, from_sidebar, on_fleet,
  on_topbar, on_sidebar, Event, on_event, on_chosen, run, visit,
}

module _ (codec : Codec) (json : IsJson codec) where
  -- The storage holds the preferences.
  record IsSaved (st : App) : Type 0 where
    raw : Option Text
    held : st.storage ≡ holds raw
    loaded : load_prefs codec st.storage ≡ st.prefs

  update-IsSaved : (c : Change) (st : App) → IsSaved st → IsSaved (update codec true c st)
  unfolding update save_prefs
  update-IsSaved c st s = record {
    raw = some ((codec.stringify) (changed c st.prefs));
    held = rw s.held refl;
    loaded = load_prefs-update codec json c st s.raw s.held;
  }

  reconcile_cluster-IsSaved :
      (cs : List Cluster) (st : App) → IsSaved st → IsSaved (reconcile_cluster codec true cs st)
  unfolding reconcile_cluster
  reconcile_cluster-IsSaved [] st s = s
  reconcile_cluster-IsSaved (c ∷ cs) st s =
      elim (Bool-cases (is_valid (c ∷ cs) st.prefs.cluster_id)) [
        | inl e ↦ rw e s
        | inr e ↦ rw e (update-IsSaved (to_cluster c.id) st s)
      ]

  opened-IsSaved :
      (o : Option Application) (st : App) → IsSaved st → IsSaved (record st { open_app = o })
  opened-IsSaved o st s = record { raw = s.raw; held = s.held; loaded = s.loaded }

  on_chosen-IsSaved : (c : Chosen) (st : App) → IsSaved st → IsSaved (on_chosen codec true c st)
  on_chosen-IsSaved (Chosen.navigates p) st s = update-IsSaved (to_page p) st s
  on_chosen-IsSaved (Chosen.opens a) st s = opened-IsSaved (some a) st s

  on_topbar-IsSaved :
      (a : TopbarAction) (st : App) → IsSaved st → IsSaved (on_topbar codec true a st)
  on_topbar-IsSaved TopbarAction.toggle_theme st s =
      update-IsSaved (to_theme (other_theme st.prefs.theme)) st s
  on_topbar-IsSaved (TopbarAction.choose_item item) st s = on_chosen-IsSaved (choose item) st s
  on_topbar-IsSaved TopbarAction.open_palette st s = s
  on_topbar-IsSaved TopbarAction.reconcile_all st s = s
  on_topbar-IsSaved TopbarAction.toggle_bell st s = s
  on_topbar-IsSaved TopbarAction.close_palette st s = s
  on_topbar-IsSaved (TopbarAction.type_query t) st s = s

  on_sidebar-IsSaved :
      (a : SidebarAction) (st : App) → IsSaved st → IsSaved (on_sidebar codec true a st)
  on_sidebar-IsSaved SidebarAction.pick_cluster st s = s
  on_sidebar-IsSaved (SidebarAction.navigate p) st s = update-IsSaved (to_page p) st s

  on_fleet-IsSaved : (a : FleetAction) (st : App) → IsSaved st → IsSaved (on_fleet codec true a st)
  unfolding pick_cluster
  on_fleet-IsSaved (FleetAction.set_layout l) st s = update-IsSaved (to_layout l) st s
  on_fleet-IsSaved FleetAction.refetch st s = s
  on_fleet-IsSaved (FleetAction.pick_cluster id) st s =
      update-IsSaved (to_page PageId.apps) (update codec true (to_cluster id) st)
        (update-IsSaved (to_cluster id) st s)

  on_apps-IsSaved : (a : AppsAction) (st : App) → IsSaved st → IsSaved (on_apps codec true a st)
  on_apps-IsSaved (AppsAction.open_app a) st s = opened-IsSaved (some a) st s
  on_apps-IsSaved AppsAction.reconcile_chosen st s = s
  on_apps-IsSaved AppsAction.toggle_rows st s = s
  on_apps-IsSaved (AppsAction.type_q t) st s = s
  on_apps-IsSaved (AppsAction.choose_status t) st s = s
  on_apps-IsSaved (AppsAction.choose_kind t) st s = s
  on_apps-IsSaved (AppsAction.choose_cluster t) st s = s
  on_apps-IsSaved (AppsAction.tick t) st s = s
  on_apps-IsSaved (AppsAction.on_row a) st s = s

  on_deps-IsSaved : (a : DepsAction) (st : App) → IsSaved st → IsSaved (on_deps codec true a st)
  on_deps-IsSaved (DepsAction.open_app a) st s = opened-IsSaved (some a) st s
  on_deps-IsSaved (DepsAction.set_search t) st s = s
  on_deps-IsSaved (DepsAction.set_status f) st s = s
  on_deps-IsSaved (DepsAction.set_cluster t) st s = s
  on_deps-IsSaved (DepsAction.set_hover c) st s = s

  on_mobile-IsSaved : (a : CardAction) (st : App) → IsSaved st → IsSaved (on_mobile codec true a st)
  on_mobile-IsSaved (CardAction.open_app a) st s = opened-IsSaved (some a) st s
  on_mobile-IsSaved (CardAction.reconcile a) st s = s
  on_mobile-IsSaved (CardAction.suspend a) st s = s
  on_mobile-IsSaved (CardAction.resume a) st s = s

  on_drawer-IsSaved :
      (a : DrawerAction) (st : App) → IsSaved st → IsSaved (on_drawer codec true a st)
  on_drawer-IsSaved DrawerAction.close st s = opened-IsSaved none st s
  on_drawer-IsSaved DrawerAction.reconcile st s = s
  on_drawer-IsSaved DrawerAction.suspend st s = s
  on_drawer-IsSaved DrawerAction.resume st s = s
  on_drawer-IsSaved (DrawerAction.choose_tab t) st s = s

  on_key-IsSaved : (k : Text) (st : App) → IsSaved st → IsSaved (on_key k st)
  unfolding on_key
  on_key-IsSaved k st s = elim (Bool-cases (k =t codes "Escape" && is_some st.open_app)) [
    | inl e ↦ rw e (opened-IsSaved none st s)
    | inr e ↦ rw e s
  ]

  on_event-IsSaved : (e : Event) (st : App) → IsSaved st → IsSaved (on_event codec true e st)
  unfolding on_event
  on_event-IsSaved (from_sidebar a) st s = on_sidebar-IsSaved a st s
  on_event-IsSaved (from_topbar a) st s = on_topbar-IsSaved a st s
  on_event-IsSaved (from_fleet a) st s = on_fleet-IsSaved a st s
  on_event-IsSaved (from_apps a) st s = on_apps-IsSaved a st s
  on_event-IsSaved (from_deps a) st s = on_deps-IsSaved a st s
  on_event-IsSaved (from_mobile a) st s = on_mobile-IsSaved a st s
  on_event-IsSaved (from_settings c) st s = update-IsSaved c st s
  on_event-IsSaved (from_drawer a) st s = on_drawer-IsSaved a st s
  on_event-IsSaved (from_key k) st s = on_key-IsSaved k st s
  on_event-IsSaved (from_clusters cs) st s = reconcile_cluster-IsSaved cs st s

  run-IsSaved : (es : List Event) (st : App) → IsSaved st → IsSaved (run codec true es st)
  unfolding run
  run-IsSaved [] st s = s
  run-IsSaved (e ∷ es) st s = run-IsSaved es (on_event codec true e st) (on_event-IsSaved e st s)

  -- Whatever the storage held before, and whatever the user does on a visit, the preferences at its
  -- end are those that the next visit starts with, with no application open, where the storage can be
  -- written and JSON reads back what it wrote.
  pub visit-run :
      (raw : Option Text) (es : List Event)
      → let st = run codec true es (visit codec (holds raw)) in
        visit codec st.storage ≡ record st { open_app = none }
  visit-run raw es =
      let saved =
        run-IsSaved es (visit codec (holds raw))
          (record { raw = raw; held = refl; loaded = refl }) in
      λ i. record {
        prefs = saved.loaded i;
        open_app = none;
        storage = (run codec true es (visit codec (holds raw))).storage;
      }
