-- ===== src/Pages/Tests.antt =====
-- web/src/pages: runs at concrete inputs.
use yafu.Base.Sort.{sort}
use yafu.Base.{
  digits, number_of, decimal, keep, ◌≡◌, ◌≢◌, refl, true, false, none, some, List, [], ◌∷◌, Text,
  codes, ◌=t◌, =t_ne, length, In, String,
}
use yafu.Base.Entries.{get, put}
use yafu.ApiTypes.{Source, SourceKind, Status, FluxEvent, EventKind, EventType}
use yafu.Markup.{Call, clickable}
use yafu.Pages.{by_kind}
use yafu.Pages.Changers.{number, written, object_entries, source_counts}
use yafu.Pages.Busy.{buttons-on_row_action, buttons-second_call}
use yafu.Pages.Rows.{RowAction, Calls, IsMutate, on_row_action, row_buttons}
use yafu.Pages.Tallies.{total_of, itself, amount, own_name, tallies_total}
use yafu.Pages.PerKey.{held, occurrences, get-source_counts}

-- A row is known by its id, which is the row itself here.
abbrev self : Text → Text
self t = t

abbrev started : Text → Call Text → Call Text
started v c = record { is_pending = true; variables = some v; error = none }

started-IsMutate : IsMutate started
started-IsMutate v c = (refl, refl)

abbrev quiet : Call Text
quiet = record { is_pending = false; variables = none; error = none }

abbrev calls : Calls Text
calls = record { reconciling = quiet; suspending = quiet; resuming = quiet }

buttons-on_row_action_example :
    clickable (
      row_buttons self
        (codes "web")
        false
        (on_row_action started (RowAction.suspend (codes "web")) calls)
        (codes "web"))
    ≡ []
buttons-on_row_action_example =
    buttons-on_row_action self started started-IsMutate (codes "web") false
      (RowAction.suspend (codes "web")) calls

web-ne-api : codes "api" ≢ codes "web"
unfolding ◌=t◌
web-ne-api = =t_ne (codes "api") (codes "web") refl

buttons-second_call_example : In (RowAction.reconcile (codes "web")) (
    clickable (
      row_buttons self
        (codes "web")
        false
        (on_row_action started
          (RowAction.reconcile (codes "api"))
          (on_row_action started (RowAction.reconcile (codes "web")) calls))
        (codes "web")))
buttons-second_call_example =
    buttons-second_call self started started-IsMutate (codes "web") false (codes "web")
      (codes "api") calls web-ne-api refl refl

abbrev source : String → SourceKind → Source
source id kind = record {
  id = codes id;
  name = codes id;
  kind = kind;
  ns = codes "default";
  cluster = codes "prod";
  cluster_id = codes "c1";
  url = [];
  ref = none;
  revision = none;
  status = Status.healthy;
  interval = none;
  age = codes "1m";
  message = none;
  suspended = false;
}

abbrev sources : List Source
sources =
    source "1" SourceKind.git_repository
    ∷ source "2" SourceKind.bucket
    ∷ source "3" SourceKind.git_repository
    ∷ []

abbrev flux_event : String → FluxEvent
flux_event component = record {
  id = codes "1";
  t = [];
  cluster = codes "prod";
  cluster_id = codes "c1";
  ns = codes "default";
  kind = EventKind.ok;
  type = EventType.normal;
  reason = [];
  message = [];
  object = [];
  source = codes component;
}

sources-by_kind : by_kind [] sources ≡ (codes "GitRepository", 2) ∷ (codes "Bucket", 1) ∷ []
unfolding by_kind get put ◌=t◌
sources-by_kind = refl

abbrev native : Text → Text
native k = codes "function Object() { [native code] }"

abbrev by_component : List FluxEvent
by_component =
    flux_event "kustomize-controller"
    ∷ flux_event "constructor"
    ∷ flux_event "10"
    ∷ flux_event ""
    ∷ flux_event "__proto__"
    ∷ flux_event "9"
    ∷ flux_event "10"
    ∷ flux_event "constructor"
    ∷ []

-- The array indexes come first, a name that is inherited has a text, and `__proto__` is lost.
entries-by_component :
    object_entries (source_counts native [] by_component)
    ≡ (codes "9", number 1)
      ∷ (codes "10", number 2)
      ∷ (codes "kustomize-controller", number 1)
      ∷ (codes "constructor", written (codes "function Object() { [native code] }11"))
      ∷ (codes "unknown", number 1)
      ∷ []
unfolding object_entries source_counts get put ◌=t◌ decimal number_of digits sort
entries-by_component = refl

tallies_total_example :
    (total_of itself (by_kind [] sources) ≡ length sources)
    × (total_of amount (source_counts native [] by_component) ≡ length (keep own_name by_component))
tallies_total_example = tallies_total native sources by_component

get-source_counts_example :
    get (codes "constructor") (source_counts native [] by_component)
    ≡ held native (codes "constructor") (occurrences (codes "constructor") by_component)
get-source_counts_example = get-source_counts native (codes "constructor") by_component
