-- ===== src/Pages/OnCall.antt =====
-- web/src/pages/Mobile.tsx: the on-call view and the cards of its incidents.
use yafu.Base.{
  Bool, true, false, ◌&&◌, not, Option, none, some, List, [], ◌∷◌, ◌++◌, Text, codes, decimal, ◌=t◌,
  length, if◌then◌else◌,
}
use yafu.ApiTypes.{Application, ApplicationsResponse}
use yafu.DepGraph.{is_failing}
use yafu.Markup.{
  is_empty, Piece, says, toned, dot, button, shown, if_some, if_text, each, Query, Call,
  first_error,
}
use yafu.Pages.{incidents, firing}
use yafu.Pages.Rows.{Calls, is_busy, waits_for}

pub data CardAction : Type 0 where
  reconcile suspend resume open_app : Application → CardAction

abbrev is_of : Option Application → Application → Bool
is_of none app = false
is_of (some v) app = v.id =t app.id

-- `m.error && m.variables?.id === app.id ? m.error : null`
abbrev pub own_error : Call Application → Application → Option Text
own_error c app = if is_of c.variables app then c.error else none

abbrev pub card_error : Calls Application → Application → Option Text
card_error c app =
    first_error (own_error c.reconciling app) (own_error c.suspending app)
      (own_error c.resuming app)

abbrev card_button : Text → Text → Bool → CardAction → Piece CardAction
card_button label title disabled action =
    button record {
      label = label;
      title = title;
      pressed = none;
      disabled = disabled;
      on_click = action;
    }

abbrev app_id : Application → Text
app_id a = a.id

-- IncidentCard, whose mutations are its own
unfoldable pub incident_card : Calls Application → Application → List (Piece CardAction)
unfolding is_busy
incident_card calls app =
    let busy = is_busy app_id calls app in
    dot (if is_failing app.status then codes "var(--err)" else codes "var(--warn)")
    ∷ toned (if is_failing app.status then codes "chip err" else codes "chip warn")
        (if is_failing app.status then codes "P1" else codes "P3")
    ∷ says app.name
    ∷ says (app.cluster ++ (codes " / " ++ (app.ns ++ (codes " · " ++ app.age))))
    ∷ (if_text app.message (λ m. says m ∷ [])
        ++ (if_some (card_error calls app) (λ e. says e ∷ [])
            ++ (card_button
                  (if waits_for app_id calls.reconciling app
                    then codes "Reconciling…"
                    else codes "Reconcile")
                  (codes "Trigger reconcile") busy (reconcile app)
                ∷ (if app.suspended
                    then card_button
                        (if waits_for app_id calls.resuming app
                          then codes "Resuming…"
                          else codes "Resume")
                        (codes "Resume reconciliation") busy (resume app)
                    else card_button
                        (if waits_for app_id calls.suspending app
                          then codes "Suspending…"
                          else codes "Suspend")
                        (codes "Suspend reconciliation") busy (suspend app))
                ∷ card_button (codes "Open") (codes "Open details") false (open_app app)
                ∷ [])))

abbrev pub apps_of : Option ApplicationsResponse → List Application
apps_of none = []
apps_of (some d) = d.applications

abbrev pub mobile_tabs : List (Text × Bool)
mobile_tabs =
    (codes "Incidents", true)
    ∷ (codes "Fleet", false)
    ∷ (codes "Apps", false)
    ∷ (codes "Me", false)
    ∷ []

abbrev tab_pieces : Text × Bool → List (Piece CardAction)
tab_pieces (label, active) =
    toned (if active then codes "var(--accent-ink)" else codes "var(--ink-3)") label ∷ []

-- `now` is the time that the host shows; `calls` are the mutations of each card
unfoldable pub mobile_page :
    Text → (Application → Calls Application) → Query ApplicationsResponse → List (Piece CardAction)
unfolding each incidents incident_card
mobile_page now calls q =
    let apps = apps_of q.result in
    says (codes "On-call view")
    ∷ says
        (codes "Designed for one-handed triage on a 4am pager. Get to the failing thing in 2 taps.")
    ∷ says now
    ∷ says (codes "YAFU")
    ∷ says (codes "● ●●●●")
    ∷ says (codes "Active incidents")
    ∷ says (if q.is_loading then codes "…" else decimal (firing apps) ++ codes " firing")
    ∷ says (decimal (length (incidents apps)) ++ codes " unhealthy across registered clusters")
    ∷ (shown (is_empty (incidents apps) && not q.is_loading)
          (says (codes "All clear. Nothing failing across your fleet.") ∷ [])
        ++ (each (λ i. incident_card (calls i) i) (incidents apps) ++ each tab_pieces mobile_tabs))
