-- ===== src/AppDetail.antt =====
-- web/src/pages/AppDetail.tsx: the names of the tabs, the live log, and times and counts. The children
-- have the drawer, its tabs, and the rendered diff with its rail.
-- `toLowerCase` and the serializer of URLSearchParams are parameters.
pub mod LogStream
pub mod Rail
pub mod DiffBody
pub mod RenderDiff
pub mod Drawer
pub mod DrawerSafety
pub mod LogsTab
pub mod LogsBlank
pub mod ResourceTabs
pub mod DriftMarks
pub mod RenderTab
pub mod Layouts
pub mod HistoryTab
pub mod Rollback
pub mod EventsTab
mod Tests
mod ViewTests
use yafu.Base.{
  ℕ, zero, suc, ◌+◌, ◌-◌, ◌/◌, min, ltb, ◌==◌, Bool, true, false, ◌&&◌, ◌||◌, not, Option, none,
  some, or_else, List, [], ◌∷◌, ◌++◌, map, Text, codes, decimal, ◌=t◌, truthy, includes, drop, keep,
  length, get_elem?, if◌then◌else◌,
}
use yafu.ApiTypes.{
  Application, Status, DriftStatus, DriftedResource, RenderResource, RenderResourceStatus,
  RenderLine, RenderLineKind, RenderHunk, RenderResponse, app_kind_text,
}
use yafu.Queries.{Serializer, resource_url, app_parts, map_text}

pub data TabId : Type 0 where
  overview tree diff events logs history yaml : TabId

abbrev pub tabs : List (TabId × Text)
tabs =
    (overview, codes "Overview")
    ∷ (tree, codes "Resource tree")
    ∷ (diff, codes "Diff")
    ∷ (events, codes "Events")
    ∷ (logs, codes "Logs")
    ∷ (history, codes "History")
    ∷ (yaml, codes "Manifests")
    ∷ []

abbrev pub dot_color : Status → Text
dot_color Status.failing = codes "var(--err)"
dot_color Status.degraded = codes "var(--warn)"
dot_color Status.paused = codes "var(--paused)"
dot_color Status.progressing = codes "var(--info)"
dot_color Status.healthy = codes "var(--ok)"

-- useLogStream: the lines in the buffer, and the terminal error.
pub record LogState : Type 0 where
  pub lines : List Text
  pub error : Option Text

abbrev pub no_log : LogState
no_log = record { lines = []; error = none }

-- `xs.slice(-n)` for a positive `n`
unfoldable pub last_of : ℕ → List Text → List Text
last_of n xs = drop (length xs - n) xs

abbrev pub buffer_limit : ℕ
buffer_limit = 1000

unfoldable pub append_line : Text → LogState → LogState
unfolding last_of
append_line line st = record st { lines = last_of buffer_limit (st.lines ++ line ∷ []) }

-- What happens to the subscription: the effect starts over on another URL, the server sends a line
-- or one of the named events, or the page clears the log. An `error` event has data where the
-- server sent it, and none where the connection was lost.
pub data LogEvent : Type 0 where
  subscribed closed cleared : LogEvent
  line : Text → LogEvent
  opened : Option Text → LogEvent
  errored : Option Text → LogEvent

-- both listeners of `error`, in the order of their registration
abbrev pub error_after : Option Text → Option Text → Option Text
error_after payload current =
    let sent = if truthy (or_else payload []) then payload else current in
    some (or_else sent (codes "connection lost"))

unfoldable pub on_log_event : LogEvent → LogState → LogState
unfolding append_line
on_log_event subscribed st = record st { error = none }
on_log_event closed st = st
on_log_event cleared st = no_log
on_log_event (line t) st = append_line t st
on_log_event (opened payload) st =
    if truthy (or_else payload []) then append_line (codes "# " ++ or_else payload []) st else st
on_log_event (errored payload) st = record st { error = error_after payload st.error }

unfoldable pub run_log : LogState → List LogEvent → LogState
unfolding on_log_event
run_log st [] = st
run_log st (e ∷ es) = run_log (on_log_event e st) es

-- buildStreamURL: `none` where there is no pod, or an encoding fails
unfoldable pub build_stream_url : Serializer → Application → Option Text → Option Text → Option Text
build_stream_url serialize a pod container =
    if truthy (or_else pod [])
    then map_text
        (λ base.
          base
          ++ codes "/stream?"
          ++ serialize (
              (codes "pod", or_else pod [])
              ∷ (if truthy (or_else container [])
                  then (codes "container", or_else container []) ∷ []
                  else [])))
        (resource_url (codes "applications") (app_parts a) (codes "logs"))
    else none

-- LogsTab: choosing a pod forgets the container.
pub record LogChoice : Type 0 where
  pub pod : Option Text
  pub container : Option Text
  pub live : Bool

abbrev or_undefined : Text → Option Text
or_undefined t = if truthy t then some t else none

abbrev pub choose_pod : Text → LogChoice → LogChoice
choose_pod v st = record st { pod = or_undefined v; container = none }

abbrev pub choose_container : Text → LogChoice → LogChoice
choose_container v st = record st { container = or_undefined v }

-- humanRelative, of the milliseconds that have passed
unfoldable pub human_relative : ℕ → Text
human_relative ms =
    let s = ms / 1000 in
    let m = s / 60 in
    if ltb s 60
    then decimal s ++ codes "s ago"
    else if ltb m 60
    then decimal m ++ codes "m ago"
    else decimal (m / 60) ++ codes "h ago"
