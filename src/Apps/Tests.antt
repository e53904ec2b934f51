-- ===== src/Apps/Tests.antt =====
-- web/src/pages/Apps.tsx: runs at concrete inputs.
use yafu.Base.{
  some, ◌≡◌, ◌↔◌, refl, false, none, List, [], ◌∷◌, Text, codes, ◌=t◌, add, discard, starts_with,
  includes, String,
}
use yafu.ApiTypes.{Application, Status, Sync, kustomization}
use yafu.ApiTypes.{ApplicationsResponse}
use yafu.Apps.{
  AppsState, initial, is_visible, filtered, add_ids, delete_ids, toggle_all, toggle_one, set_q,
}
use yafu.Markup.{is_empty, Query}
use yafu.Pages.Rows.{Calls}
use yafu.Apps.View.{AppsAction, apps_body}
use yafu.Apps.Blank.{apps_body-nil_iff}
use yafu.Apps.Refine.{Event, acts, reconciled, view, run, replay, run_refines}

abbrev row : String → String → Application
row id name = record {
  id = codes id;
  name = codes name;
  kind = kustomization;
  ns = codes "default";
  cluster = codes "prod";
  cluster_id = codes "c1";
  status = Status.healthy;
  sync = Sync.synced;
  source = [];
  revision = [];
  age = codes "1m";
  message = none;
  suspended = false;
  replicas = none;
}

abbrev rows : List Application
rows = row "1" "web" ∷ row "2" "api" ∷ []

-- The texts of these tests are in lower case.
abbrev lower : Text → Text
lower t = t

abbrev searched : AppsState
searched = set_q (codes "web") (toggle_one (codes "2") initial)

searched-toggle_all : (toggle_all lower rows searched).selected ≡ codes "2" ∷ codes "1" ∷ []
unfolding toggle_all toggle_one is_visible add_ids delete_ids add discard ◌=t◌ starts_with includes
searched-toggle_all = refl

abbrev no_calls : Calls Application
no_calls = record {
  reconciling = record { is_pending = false; variables = none; error = none };
  suspending = record { is_pending = false; variables = none; error = none };
  resuming = record { is_pending = false; variables = none; error = none };
}

abbrev fetched : Query ApplicationsResponse
fetched = record {
  result = some (record { applications = rows; errors = none });
  is_loading = false;
  error = none;
}

apps_body-nil_iff_example :
    (apps_body lower searched no_calls fetched [] ≡ [])
    ↔ ((is_empty rows ≡ false) × (filtered lower rows searched ≡ []) × (fetched.error ≡ none))
apps_body-nil_iff_example = apps_body-nil_iff lower searched no_calls fetched []

abbrev clicks : List Event
clicks =
    acts (AppsAction.tick (codes "2"))
    ∷ acts (AppsAction.type_q (codes "web"))
    ∷ acts AppsAction.toggle_rows
    ∷ reconciled
    ∷ acts AppsAction.toggle_rows
    ∷ []

run_refines_example : view (run lower rows clicks initial) ≡ replay lower rows clicks (view initial)
run_refines_example = run_refines lower rows clicks initial
