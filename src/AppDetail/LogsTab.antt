-- ===== src/AppDetail/LogsTab.antt =====
-- web/src/pages/AppDetail.tsx, LogsTab: the choice of pod, container and stream, and what is shown.
use yafu.Base.{
  ltb, Bool, false, ◌&&◌, not, Option, none, some, or_else, is_some, List, [], ◌∷◌, ◌++◌, map, Text,
  codes, decimal, ◌=t◌, truthy, length, join, if◌then◌else◌,
}
use yafu.ApiTypes.{LogsResponse, PodInfo, PodPhase}
use yafu.Markup.{is_empty, Piece, says, select, checkbox, shown, if_some, if_text, or_text, Query}
use yafu.AppDetail.{LogState, no_log, LogChoice, choose_pod, choose_container}

pub data LogsAction : Type 0 where
  pick_pod pick_container : Text → LogsAction
  set_live : Bool → LogsAction

-- The tab's own state, and that of the stream.
pub record LogsTab : Type 0 where
  pub choice : LogChoice
  pub stream : LogState

-- The handlers. The effect on `live` clears the stream when it is turned off.
unfoldable pub on_logs_action : LogsAction → LogsTab → LogsTab
on_logs_action (pick_pod v) st = record { choice = choose_pod v st.choice; stream = no_log }
on_logs_action (pick_container v) st = record {
  choice = choose_container v st.choice;
  stream = no_log;
}
on_logs_action (set_live b) st = record {
  choice = record st.choice { live = b };
  stream = if not b && st.choice.live then no_log else st.stream;
}

abbrev pub phase_text : PodPhase → Text
phase_text PodPhase.pending = codes "Pending"
phase_text PodPhase.running = codes "Running"
phase_text PodPhase.succeeded = codes "Succeeded"
phase_text PodPhase.failed = codes "Failed"
phase_text PodPhase.unknown = codes "Unknown"

-- `${p.ns}/${p.name}`
abbrev pub pod_key : PodInfo → Text
pod_key p = p.ns ++ (codes "/" ++ p.name)

abbrev pub pods_of : Option LogsResponse → List PodInfo
pods_of none = []
pods_of (some d) = d.pods

abbrev pub logs_text : Option LogsResponse → Text
logs_text none = []
logs_text (some d) = or_else d.logs []

abbrev pub note_text : Option LogsResponse → Text
note_text none = []
note_text (some d) = or_else d.note []

abbrev pub is_truncated : Option LogsResponse → Bool
is_truncated none = false
is_truncated (some d) = or_else d.truncated false

abbrev selected_key : Option LogsResponse → Option Text
selected_key none = none
selected_key (some d) = d.selected

abbrev shown_container : Option LogsResponse → Option Text
shown_container none = none
shown_container (some d) = d.container

-- `a ?? b`
abbrev pub or_other : Option Text → Option Text → Option Text
or_other none o = o
or_other (some t) o = some t

abbrev is_key : PodInfo → Option Text → Bool
is_key p none = false
is_key p (some k) = pod_key p =t k

-- the containers of the pod that the server has selected
unfoldable pub containers_of : Option Text → List PodInfo → List Text
containers_of selected [] = []
containers_of selected (p ∷ ps) =
    if is_key p selected then p.containers else containers_of selected ps

abbrev pub active_pod : LogChoice → Option LogsResponse → Option Text
active_pod c d = or_other c.pod (selected_key d)

abbrev pub active_container : LogChoice → Option LogsResponse → Option Text
active_container c d = or_other c.container (shown_container d)

abbrev pod_option : PodInfo → Text × Text
pod_option p = (
  pod_key p,
  pod_key p
      ++ (codes " · "
          ++ (phase_text p.phase
              ++ (if ltb 0 p.restarts
                  then codes " · " ++ (decimal p.restarts ++ codes " restarts")
                  else []))),
)

unfoldable pub logs_head : LogsTab → Option LogsResponse → List (Piece LogsAction)
unfolding containers_of
logs_head st d =
    let pods = pods_of d in
    let containers = containers_of (selected_key d) pods in
    select (or_else (active_pod st.choice d) [])
      (shown (is_empty pods) (([], codes "no pods discovered") ∷ []) ++ map pod_option pods)
      pick_pod
    ∷ (shown (ltb 1 (length containers)) (
          select (or_else (active_container st.choice d) []) (map (λ c. (c, c)) containers)
            pick_container
          ∷ [])
        ++ (shown (is_truncated d && not st.choice.live)
              (says (codes "truncated · last 256 KiB") ∷ [])
            ++ (checkbox (codes "live") st.choice.live (is_empty pods) set_live ∷ [])))

unfoldable pub live_body : LogState → List (Piece LogsAction)
unfolding join
live_body s =
    let text = join (codes "\n") s.lines in
    shown (is_empty s.lines) (says (codes "# waiting for live output…") ∷ [])
    ++ (shown (truthy text) (says text ∷ [])
        ++ if_text s.error (λ e. says (codes "stream: " ++ e) ∷ []))

-- what the pane of the log shows before the stream
unfoldable pub log_notices : LogsTab → Query LogsResponse → List (Piece LogsAction)
log_notices st q =
    let pods = pods_of q.result in
    let logs = logs_text q.result in
    let live = st.choice.live in
    shown (q.is_loading && (not (truthy logs) && not live)) (says (codes "Loading…") ∷ [])
    ++ (if_some q.error (λ e. shown (not live) (says (codes "error: " ++ e) ∷ []))
        ++ (shown (not q.is_loading && (not (is_some q.error) && is_empty pods)) (
              says (
                or_text (note_text q.result)
                  (codes "No pods matched this application in its inventory namespaces."))
              ∷ [])
            ++ (shown (not live && truthy logs) (says logs ∷ [])
                ++ shown
                    (not live && (not (truthy logs) && (not (is_empty pods) && not q.is_loading)))
                    (says (codes "# selected pod produced no log lines yet") ∷ []))))

unfoldable pub logs_body : LogsTab → Query LogsResponse → List (Piece LogsAction)
unfolding log_notices live_body
logs_body st q = log_notices st q ++ shown st.choice.live (live_body st.stream)

abbrev pub logs_note : Option LogsResponse → List (Piece LogsAction)
logs_note d = shown (truthy (note_text d)) (says (codes "note: " ++ note_text d) ∷ [])
