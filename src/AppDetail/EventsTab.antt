-- ===== src/AppDetail/EventsTab.antt =====
-- web/src/pages/AppDetail.tsx, EventsTab and ManifestTab. The clock of the host, `toLocaleTimeString`
-- of a date, is a parameter; `none` stands for an exception.
use yafu.Base.{
  ltb, false, not, Option, none, some, List, [], ◌∷◌, ◌++◌, Text, codes, decimal, truthy, length,
  if◌then◌else◌,
}
use yafu.ApiTypes.{
  Application, EventKind, FluxEvent, EventsResponse, ManifestResponse, app_kind_text,
}
use yafu.Markup.{is_empty, Piece, says, toned, row, button, each, Query, listing, or_text}

abbrev time_or : Option Text → Text → Text
time_or none t = t
time_or (some s) t = s

abbrev pub event_kind_text : EventKind → Text
event_kind_text EventKind.ok = codes "ok"
event_kind_text EventKind.warn = codes "warn"
event_kind_text EventKind.err = codes "err"

abbrev pub reason_color : EventKind → Text
reason_color EventKind.err = codes "var(--err)"
reason_color EventKind.warn = codes "var(--warn)"
reason_color EventKind.ok = codes "var(--ok)"

abbrev pub events_of : Option EventsResponse → List FluxEvent
events_of none = []
events_of (some d) = d.events

pub data ManifestAction : Type 0 where
  copy : Text → ManifestAction

module _ (locale_time : Text → Option Text) where
  unfoldable pub format_event_time : Text → Text
  format_event_time t = if truthy t then time_or (locale_time t) t else []

  unfoldable pub event_row : FluxEvent → List (Piece ManifestAction)
  unfolding format_event_time
  event_row e =
      row false none
      ∷ toned (codes "tl-item " ++ event_kind_text e.kind) (format_event_time e.t)
      ∷ says (or_text e.source (codes "flux"))
      ∷ toned (reason_color e.kind) e.reason
      ∷ says e.message
      ∷ []

  unfoldable pub events_tab : Query EventsResponse → List (Piece ManifestAction)
  unfolding event_row
  events_tab q =
      let events = events_of q.result in
      says (codes "Reconciliation timeline")
      ∷ says
          (if ltb 0 (length events) then decimal (length events) ++ codes " events · live" else [])
      ∷ listing (codes "Loading events…") (codes "No events")
          (some (
            codes
              "Flux controllers haven't emitted Events for this resource recently. Trigger a reconcile to generate one."))
          q.is_loading q.error (is_empty events) (each event_row events)

abbrev pub yaml_text : Option ManifestResponse → Text
yaml_text none = []
yaml_text (some d) = d.yaml

-- what is written to the clipboard
abbrev pub on_copy : ManifestAction → Option Text
on_copy (copy t) = if truthy t then some t else none

unfoldable pub manifest_tab : Application → Query ManifestResponse → List (Piece ManifestAction)
manifest_tab app q =
    let yaml = yaml_text q.result in
    says (app_kind_text app.kind ++ codes " · live state")
    ∷ button record {
      label = [];
      title = codes "Copy";
      pressed = none;
      disabled = not (truthy yaml);
      on_click = copy yaml;
    }
    ∷ listing (codes "Loading manifest…") (codes "No manifest")
        (some (codes "The resource exists but produced no YAML.")) q.is_loading q.error
        (not (truthy yaml)) (says yaml ∷ [])
