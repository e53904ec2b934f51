-- ===== src/AppDetail/ViewTests.antt =====
-- web/src/pages/AppDetail.tsx: runs of the drawer and its tabs at concrete inputs.
use yafu.Base.{
  or_else, truthy, ◌↔◌, String, ◌≤◌, ◌≡◌, refl, Bool, true, false, Option, none, some, List, [],
  ◌∷◌, Text, codes, inl,
}
use yafu.ApiTypes.{
  Application, AppKind, AppHistoryEntry, Status, Sync, DriftStatus, DriftedResource, FieldOperation,
  RenderLine, RenderLineKind, RenderResource, RenderResourceStatus, LogsResponse,
}
use yafu.Markup.{Call, Query, each}
use yafu.AppDetail.{TabId, no_log}
use yafu.AppDetail.Drawer.{
  Drawer, DrawerAction, TabKey, on_tab_key, drawer_buttons, on_drawer_action,
}
use yafu.AppDetail.DrawerSafety.{
  Step, clicks, stays, goes, pending_calls, Reaches-one_call, on_tab_key-back,
}
use yafu.AppDetail.LogsTab.{LogsTab, logs_body}
use yafu.AppDetail.LogsBlank.{text_of, no_pod_found, logs_body-blank_iff}
use yafu.AppDetail.ResourceTabs.{drift_row, count_drifted}
use yafu.AppDetail.DriftMarks.{marks, drifted-marks}
use yafu.AppDetail.DiffBody.{split_desired, split_live, unified}
use yafu.AppDetail.Layouts.{read_split, read_unified, split-unified}
use yafu.AppDetail.HistoryTab.{
  RollbackVars, HistoryAction, on_rollback, is_helm, question, entry_row, selectable_entries,
}
use yafu.AppDetail.Rollback

abbrev release : Application
release = record {
  id = codes "1";
  name = codes "web";
  kind = AppKind.helm_release;
  ns = codes "default";
  cluster = codes "prod";
  cluster_id = codes "c1";
  status = Status.healthy;
  sync = Sync.synced;
  source = [];
  revision = [];
  age = codes "1m";
  message = none;
  suspended = false;
  replicas = none;
}

abbrev quiet : Call Application
quiet = record { is_pending = false; variables = none; error = none }

abbrev started : Application → Call Application → Call Application
started a c = record { is_pending = true; variables = some a; error = none }

abbrev fresh : Drawer
fresh = record { tab = TabId.overview; reconciling = quiet; suspending = quiet; resuming = quiet }

abbrev reconciling : Drawer
reconciling = record fresh { reconciling = started release quiet }

click : Step started fresh reconciling
unfolding drawer_buttons on_drawer_action
click = clicks release DrawerAction.reconcile fresh (inl refl)

Reaches-one_call_example : pending_calls reconciling ≤ 1
Reaches-one_call_example =
    Reaches-one_call started fresh reconciling
      (goes fresh reconciling reconciling click (stays reconciling)) refl

on_tab_key-back_example :
    ((u : TabId) × (on_tab_key TabKey.arrow_right TabId.yaml ≡ some u)
      × (on_tab_key TabKey.arrow_left u ≡ some TabId.yaml))
    × ((u : TabId) × (on_tab_key TabKey.arrow_left TabId.yaml ≡ some u)
        × (on_tab_key TabKey.arrow_right u ≡ some TabId.yaml))
on_tab_key-back_example = on_tab_key-back TabId.yaml

abbrev logs_tab : LogsTab
logs_tab = record {
  choice = record { pod = none; container = none; live = false };
  stream = no_log;
}

abbrev logs_query : Query LogsResponse
logs_query = record { result = none; is_loading = false; error = some (codes "timeout") }

logs_body-blank_iff_example : (text_of (logs_body logs_tab logs_query) ≡ []) ↔ (
    (logs_tab.choice.live ≡ true)
    × (logs_tab.stream.lines ≡ [] ∷ [])
    × (truthy (or_else logs_tab.stream.error []) ≡ false)
    × (no_pod_found logs_query ≡ false))
logs_body-blank_iff_example = logs_body-blank_iff logs_tab logs_query

abbrev drifted : DriftStatus → DriftedResource
drifted s = record {
  group = none;
  version = none;
  kind = codes "ConfigMap";
  ns = none;
  name = codes "web";
  status = s;
  managers = some (
      record {
        manager = codes "kubectl";
        operation = FieldOperation.update;
        time = none;
        foreign = true;
      }
      ∷ []);
}

abbrev resources : List DriftedResource
resources = drifted DriftStatus.drift ∷ drifted DriftStatus.unknown ∷ []

drifted-marks_example :
    marks (codes "var(--err)") (each drift_row resources) ≡ count_drifted resources
drifted-marks_example = drifted-marks resources

resources-count_drifted : count_drifted resources ≡ 1
unfolding count_drifted
resources-count_drifted = refl

abbrev diff_line : RenderLineKind → RenderLine
diff_line k = record { kind = k; desired_ln = some 1; live_ln = none; text = codes "replicas: 2" }

abbrev changed_map : RenderResource
changed_map = record {
  group = none;
  version = none;
  kind = codes "ConfigMap";
  ns = none;
  name = codes "web";
  status = RenderResourceStatus.drifted;
  hunks = some (
      record {
        label = codes "spec";
        lines = diff_line RenderLineKind.del ∷ diff_line RenderLineKind.add ∷ [];
      }
      ∷ []);
  render_error = none;
  reconcile_would = none;
}

split-unified_example :
    read_split (split_desired changed_map) (split_live changed_map)
    ≡ read_unified (unified changed_map)
split-unified_example = split-unified changed_map ((refl, (refl, tt)), tt)

abbrev entry : String → Bool → AppHistoryEntry
entry r current = record {
  revision = codes r;
  status = none;
  action = none;
  app_version = none;
  timestamp = none;
  current = current;
}

abbrev entries : List AppHistoryEntry
entries = entry "2.0.0" true ∷ entry "1.0.0" false ∷ []

abbrev clock : Text → Option Text
clock t = some t

abbrev agrees : Text → Bool
agrees t = true

picked : Rollback.Reaches clock release entries (some (codes "1.0.0"))
unfolding entry_row each selectable_entries
picked = Rollback.clicks (HistoryAction.pick (codes "1.0.0")) none Rollback.opens (inl refl)

abbrev target : RollbackVars
target = record { app = release; revision = codes "1.0.0" }

asked : on_rollback agrees release (some (codes "1.0.0")) ≡ some target
unfolding on_rollback
asked = refl

rollback-IsPrevious_example :
    (is_helm release ≡ true)
    × Rollback.IsPrevious clock release entries (codes "1.0.0")
    × (agrees (question release (codes "1.0.0")) ≡ true)
rollback-IsPrevious_example =
    Rollback.rollback-IsPrevious clock release entries agrees (some (codes "1.0.0")) target picked
      asked
