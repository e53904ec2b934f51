-- ===== src/Pages/Activity.antt =====
-- web/src/pages/Activity.tsx: the page around the filter of the events. `toLowerCase`, the clock
-- of the host and what it writes of a function are parameters.
use yafu.Base.{
  Bool, true, false, Option, none, some, or_else, List, [], ◌∷◌, ◌++◌, Text, codes, decimal, length,
}
use yafu.ApiTypes.{ClusterError, FluxEvent, EventsResponse}
use yafu.Markup.{
  is_empty, Piece, says, toned, icon, row, button, input, each, or_text, Query, listing,
  partial_fan_out,
}
use yafu.Pages.{Severity, shown_events}
use yafu.Pages.Changers.{Tally, number, written, top_changers}
use yafu.AppDetail.EventsTab.{format_event_time, event_kind_text, events_of}

pub data ActivityAction : Type 0 where
  set_severity : Severity → ActivityAction
  set_search : Text → ActivityAction

pub record ActivityState : Type 0 where
  pub severity : Severity
  pub search : Text

abbrev pub first_activity : ActivityState
first_activity = record { severity = Severity.all; search = [] }

abbrev pub on_activity_action : ActivityAction → ActivityState → ActivityState
on_activity_action (set_severity s) st = record st { severity = s }
on_activity_action (set_search t) st = record st { search = t }

abbrev pub event_errors : Option EventsResponse → List ClusterError
event_errors none = []
event_errors (some d) = or_else d.errors []

abbrev severity_label : Severity → Text
severity_label Severity.all = codes "All"
severity_label Severity.ok = codes "OK"
severity_label Severity.warn = codes "Warnings"
severity_label Severity.err = codes "Errors"

abbrev same_severity : Severity → Severity → Bool
same_severity Severity.all Severity.all = true
same_severity Severity.ok Severity.ok = true
same_severity Severity.warn Severity.warn = true
same_severity Severity.err Severity.err = true
same_severity _ _ = false

abbrev severity_button : Severity → Severity → Piece ActivityAction
severity_button chosen s = button record {
  label = severity_label s;
  title = [];
  pressed = some (same_severity chosen s);
  disabled = false;
  on_click = set_severity s;
}

-- the buttons and the search of the head
abbrev pub activity_controls : ActivityState → List (Piece ActivityAction)
activity_controls st =
    severity_button st.severity Severity.all
    ∷ severity_button st.severity Severity.ok
    ∷ severity_button st.severity Severity.warn
    ∷ severity_button st.severity Severity.err
    ∷ icon (codes "search")
    ∷ input (codes "Search events") st.search set_search
    ∷ []

abbrev tally_text : Tally → Text
tally_text (number n) = decimal n
tally_text (written t) = t

module _ (lower : Text → Text) (locale_time : Text → Option Text) (native : Text → Text) where
  unfoldable pub activity_row : FluxEvent → List (Piece ActivityAction)
  unfolding format_event_time
  activity_row e =
      row false none
      ∷ toned (codes "tl-item " ++ event_kind_text e.kind) (format_event_time locale_time e.t)
      ∷ says (or_text e.source (codes "flux"))
      ∷ says (codes "·")
      ∷ says (e.cluster ++ (codes "/" ++ (e.ns ++ (codes "/" ++ e.object))))
      ∷ says e.reason
      ∷ says e.message
      ∷ []

  abbrev changers : List FluxEvent → List (Piece ActivityAction)
  changers events =
      says (codes "Most active sources")
      ∷ says (codes "Source component")
      ∷ says (codes "events")
      ∷ each (λ nc. says nc.0 ∷ says (tally_text nc.1) ∷ []) (top_changers native events)

  unfoldable pub activity_page : ActivityState → Query EventsResponse → List (Piece ActivityAction)
  unfolding shown_events activity_row each top_changers
  activity_page st q =
      let all_events = events_of q.result in
      let events = shown_events lower st.severity st.search all_events in
      says (codes "Activity")
      ∷ says (decimal (length events) ++ codes " recent events · live")
      ∷ says (codes "k8s Events emitted by Flux controllers across every reachable cluster.")
      ∷ (activity_controls st
          ++ (partial_fan_out (event_errors q.result)
              ++ listing (codes "Loading events…") (codes "No Flux events")
                  (some (
                    codes
                      "Events appear here as soon as Flux controllers emit them on Kustomization / HelmRelease / source resources."))
                  q.is_loading q.error (is_empty events)
                  (says (codes "Live activity")
                    ∷ (each activity_row events ++ changers all_events))))
