-- ===== src/AppDetail/HistoryTab.antt =====
-- web/src/pages/AppDetail.tsx, HistoryTab: the choice of a revision and the rollback to it. The
-- dialog's answer and the clock of the host are parameters.
use yafu.Base.{
  ltb, Bool, true, false, ◌&&◌, ◌||◌, not, Option, none, some, or_else, is_some, List, [], ◌∷◌,
  ◌++◌, Text, codes, ◌=t◌, truthy, keep, length, if◌then◌else◌,
}
use yafu.ApiTypes.{Application, AppKind, AppHistoryEntry, AppHistoryResponse}
use yafu.Chrome.{status_chip}
use yafu.Markup.{
  is_empty, Piece, says, toned, dot, row, button, checkbox, shown, if_some, if_text, or_dash, each,
  Query, Call, listing,
}
use yafu.AppDetail.EventsTab.{format_event_time}

pub data HistoryAction : Type 0 where
  pick : Text → HistoryAction
  roll_back : HistoryAction

-- the argument of the rollback's mutation
pub record RollbackVars : Type 0 where
  pub app : Application
  pub revision : Text

abbrev pub entries_of : Option AppHistoryResponse → List AppHistoryEntry
entries_of none = []
entries_of (some d) = d.entries

abbrev pub history_note : Option AppHistoryResponse → Option Text
history_note none = none
history_note (some d) = d.note

abbrev pub is_helm : Application → Bool
is_helm app = elim app.kind [ AppKind.helm_release ↦ true | AppKind.kustomization ↦ false ]

unfoldable pub selectable_entries : List AppHistoryEntry → List AppHistoryEntry
selectable_entries = keep (λ e. not e.current)

abbrev pub can_rollback : Application → Option Text → Bool
can_rollback app selected = is_helm app && is_some selected

abbrev pub question : Application → Text → Text
question app revision =
    codes "Roll back "
    ++ (app.name
        ++ (codes " to "
            ++ (revision
                ++ codes
                    "? This patches spec.chart.spec.version and triggers a forced reconcile.")))

-- onRollback: the call that is made, if one is; `confirm` answers the question
unfoldable pub on_rollback : (Text → Bool) → Application → Option Text → Option RollbackVars
on_rollback confirm app none = none
on_rollback confirm app (some revision) =
    if truthy revision && confirm (question app revision)
    then some (record { app = app; revision = revision })
    else none

-- the revision that is selected after an action
abbrev pub on_history_action : HistoryAction → Option Text → Option Text
on_history_action (pick r) selected = some r
on_history_action roll_back selected = selected

abbrev pub is_selectable : Application → List AppHistoryEntry → AppHistoryEntry → Bool
is_selectable app entries e =
    is_helm app && (not e.current && ltb 0 (length (selectable_entries entries)))

abbrev is_selected : Option Text → AppHistoryEntry → Bool
is_selected none e = false
is_selected (some r) e = r =t e.revision

abbrev is_status : AppHistoryEntry → Text → Bool
is_status e s = or_else e.status [] =t s

abbrev pub entry_dot : AppHistoryEntry → Text
entry_dot e =
    if is_status e (codes "failed")
    then codes "var(--err)"
    else if is_status e (codes "superseded")
    then codes "var(--paused)"
    else codes "var(--ok)"

abbrev pub entry_chip : AppHistoryEntry → Text
entry_chip e =
    if is_status e (codes "deployed")
    then codes "healthy"
    else if is_status e (codes "failed")
    then codes "failing"
    else codes "paused"

unfoldable pub rollback_title : Application → Option Text → Text
rollback_title app selected =
    if not (is_helm app)
    then codes "Kustomizations roll forward — revert in Git instead"
    else if not (truthy (or_else selected []))
    then codes "Select a previous revision below"
    else codes "Roll back to " ++ or_else selected []

unfoldable pub rollback_button : Application → Option Text → Call RollbackVars → Piece HistoryAction
unfolding rollback_title
rollback_button app selected rollback = button record {
  label = if rollback.is_pending then codes "Rolling back…" else codes "Rollback to selected";
  title = rollback_title app selected;
  pressed = none;
  disabled = not (can_rollback app selected) || rollback.is_pending;
  on_click = roll_back;
}

module _ (locale_time : Text → Option Text) where
  abbrev entry_time : Option Text → Text
  entry_time none = codes "—"
  entry_time (some t) = if truthy t then format_event_time locale_time t else codes "—"

  unfoldable pub entry_row :
      Application
      → List AppHistoryEntry
      → Option Text
      → AppHistoryEntry
      → List (Piece HistoryAction)
  unfolding status_chip
  entry_row app entries selected e =
      row (is_selected selected e)
        (if is_selectable app entries e then some (pick e.revision) else none)
      ∷ (shown (is_selectable app entries e) (
            checkbox (codes "Select revision " ++ e.revision) (is_selected selected e) false
              (λ _. pick e.revision)
            ∷ [])
          ++ (dot (entry_dot e)
              ∷ says e.revision
              ∷ (shown e.current (says (codes "current") ∷ [])
                  ++ (says (or_dash e.action)
                      ∷ says (or_dash e.app_version)
                      ∷ toned (status_chip (entry_chip e) e.status).cls
                          (status_chip (entry_chip e) e.status).text
                      ∷ says (entry_time e.timestamp)
                      ∷ []))))

  unfoldable pub history_tab :
      Application
      → Option Text
      → Call RollbackVars
      → Query AppHistoryResponse
      → List (Piece HistoryAction)
  unfolding entry_row rollback_button
  history_tab app selected rollback q =
      let entries = entries_of q.result in
      says (codes "Recent revisions")
      ∷ rollback_button app selected rollback
      ∷ (if_some rollback.error (λ m. says (codes "rollback failed: " ++ m) ∷ [])
          ++ (listing (codes "Loading history…") (codes "No history")
                (some (
                  if is_helm app
                  then codes "No HelmRelease snapshots recorded yet."
                  else codes "Kustomization only retains its current revision."))
                q.is_loading q.error (is_empty entries)
                (each (entry_row app entries selected) entries)
              ++ if_text (history_note q.result) (λ n. says (codes "note: " ++ n) ∷ [])))
