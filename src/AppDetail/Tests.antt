-- ===== src/AppDetail/Tests.antt =====
-- web/src/pages/AppDetail.tsx: runs at concrete inputs.
use yafu.Base.{
  ◌≡◌, ◌≤◌, refl, true, none, some, List, [], ◌∷◌, Text, codes, length, get_elem?, digits, decimal,
  String,
}
use yafu.ApiTypes.{RenderResource, RenderResourceStatus}
use yafu.AppDetail.RenderDiff.{
  arrow_down, rail_next, position_of, no_counts, visible_from, rail_shows, count_by_status,
  on_rail_key,
}
use yafu.AppDetail.{
  no_log, last_of, buffer_limit, append_line, LogEvent, on_log_event, run_log, line, opened,
  errored, human_relative,
}
use yafu.AppDetail.LogStream.{received, run_log_lines}
use yafu.AppDetail.Rail.{on_rail_key-shown}

abbrev history : List LogEvent
history = opened (some (codes "pod web-1")) ∷ line (codes "ready") ∷ errored none ∷ []

history-run_log : run_log no_log history ≡ record {
  lines = codes "# pod web-1" ∷ codes "ready" ∷ [];
  error = some (codes "connection lost");
}
unfolding run_log on_log_event append_line last_of
history-run_log = refl

run_log_lines_example :
    ((run_log no_log history).lines ≡ last_of buffer_limit (received [] history))
    × (length (run_log no_log history).lines ≤ buffer_limit)
run_log_lines_example = run_log_lines history

abbrev resource : String → RenderResourceStatus → RenderResource
resource name status = record {
  group = none;
  version = none;
  kind = codes "ConfigMap";
  ns = none;
  name = codes name;
  status = status;
  hunks = none;
  render_error = none;
  reconcile_would = none;
}

abbrev resources : List RenderResource
resources =
    resource "a" RenderResourceStatus.drifted ∷ resource "b" RenderResourceStatus.in_sync ∷ []

abbrev same : Text → Text
same t = t

down-on_rail_key : on_rail_key (visible_from same 0 [] resources) arrow_down 0 ≡ some 1
unfolding on_rail_key visible_from position_of rail_next
down-on_rail_key = refl

on_rail_key-shown_example :
    (r : RenderResource) × (get_elem? resources 1 ≡ some r) × (rail_shows same [] r ≡ true)
on_rail_key-shown_example = on_rail_key-shown same [] resources arrow_down 0 1 down-on_rail_key

counted-count_by_status :
    count_by_status no_counts resources ≡ record no_counts { in_sync = 1; drifted = 1 }
unfolding count_by_status
counted-count_by_status = refl

two_hours-human_relative : human_relative 7300000 ≡ codes "2h ago"
unfolding human_relative decimal digits
two_hours-human_relative = refl
