-- ===== src/Pages/Alerts.antt =====
-- web/src/pages/Alerts.tsx: the alerts, their counts and their rows.
use yafu.Base.{
  Bool, true, false, Option, none, some, or_else, List, [], ◌∷◌, ◌++◌, Text, codes, decimal, ◌=t◌,
  keep, length, if◌then◌else◌,
}
use yafu.ApiTypes.{Alert, AlertSeverity, AlertStatus, AlertsResponse, ClusterError}
use yafu.Chrome.{status_chip}
use yafu.Markup.{
  is_empty, Piece, says, toned, dot, row, or_dash, each, Query, listing, action_failed,
  partial_fan_out,
}
use yafu.Pages.Rows.{RowAction, Calls, last_error, row_buttons}
use yafu.Pages.Images.{counted}

abbrev pub alerts_of : Option AlertsResponse → List Alert
alerts_of none = []
alerts_of (some d) = d.alerts

abbrev pub alert_errors : Option AlertsResponse → List ClusterError
alert_errors none = []
alert_errors (some d) = or_else d.errors []

abbrev pub alerts_meta : List Alert → Text
alerts_meta as' =
    decimal (length as')
    ++ (codes " total" ++ counted (length (keep (λ a. a.suspended) as')) (codes "paused"))

abbrev is_paused : AlertStatus → Bool
is_paused AlertStatus.paused = true
is_paused AlertStatus.healthy = false

abbrev is_error : AlertSeverity → Bool
is_error AlertSeverity.error = true
is_error AlertSeverity.info = false

abbrev severity_text : AlertSeverity → Text
severity_text AlertSeverity.error = codes "error"
severity_text AlertSeverity.info = codes "info"

abbrev pub alert_dot : Alert → Text
alert_dot a =
    if is_paused a.status
    then codes "var(--paused)"
    else if is_error a.severity
    then codes "var(--err)"
    else codes "var(--ok)"

abbrev provider_color : Text → Text
provider_color p = if p =t codes "missing" then codes "var(--err)" else codes "var(--ink-2)"

unfoldable pub alert_row : Calls Alert → Alert → List (Piece (RowAction Alert))
unfolding row_buttons status_chip
alert_row calls a =
    let chip = status_chip (if is_paused a.status then codes "paused" else codes "healthy") none in
    row false none
    ∷ dot (alert_dot a)
    ∷ says a.name
    ∷ says a.ns
    ∷ says a.cluster
    ∷ toned (provider_color a.provider) a.provider
    ∷ toned (codes "chip " ++ (if is_error a.severity then codes "err" else codes "info"))
        (severity_text a.severity)
    ∷ says (or_dash a.target)
    ∷ toned chip.cls chip.text
    ∷ says a.age
    ∷ row_buttons (λ x. x.id) a.name a.suspended calls a

unfoldable pub alerts_page : Query AlertsResponse → Calls Alert → List (Piece (RowAction Alert))
unfolding alert_row
alerts_page q calls =
    let alerts = alerts_of q.result in
    says (codes "Alerts & Notifications")
    ∷ says (alerts_meta alerts)
    ∷ says (codes "notification.toolkit.fluxcd.io Alerts joined with their referenced Provider.")
    ∷ (action_failed (last_error calls)
        ++ (partial_fan_out (alert_errors q.result)
            ++ listing (codes "Loading alerts…") (codes "No alerts")
                (some (
                  codes
                    "Configure Alerts + Providers under notification.toolkit.fluxcd.io to route Flux events to Slack, PagerDuty, MS Teams, webhooks, etc."))
                q.is_loading q.error (is_empty alerts) (each (alert_row calls) alerts)))
