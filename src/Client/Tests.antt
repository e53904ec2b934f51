-- ===== src/Client/Tests.antt =====
-- web/src/App.tsx: a visit at a concrete input.
use yafu.Base.{List, true, ◌≡◌, none, [], ◌∷◌, codes}
use yafu.Shell.{Theme, FleetLayout, holds, to_theme}
use yafu.Shell.Sample.{codec, json}
use yafu.Pages.Fleet.{FleetAction}
use yafu.Client.{from_key, from_fleet, from_settings, Event, run, visit}
use yafu.Client.Reload.{visit-run}

abbrev steps : List Event
steps =
    from_settings (to_theme Theme.dark)
    ∷ from_fleet (FleetAction.set_layout FleetLayout.matrix)
    ∷ from_fleet (FleetAction.pick_cluster (codes "c1"))
    ∷ from_key (codes "Escape")
    ∷ []

visit-run_example :
    visit codec (run codec true steps (visit codec (holds none))).storage
    ≡ record (run codec true steps (visit codec (holds none))) { open_app = none }
visit-run_example = visit-run codec json none steps
