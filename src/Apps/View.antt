-- ===== src/Apps/View.antt =====
-- web/src/pages/Apps.tsx: the view of the applications page and its handlers. `toLowerCase` and
-- `mutate` of the mutations are parameters; what the chips keep of their own is left to them.
use yafu.Base.{
  ℕ, ltb, ◌==◌, Bool, true, false, ◌&&◌, ◌||◌, not, Option, none, some, or_else, List, [], ◌∷◌,
  ◌++◌, map, Text, codes, decimal, ◌=t◌, has, truthy, length, if◌then◌else◌,
}
use yafu.ApiTypes.{
  Application, ApplicationsResponse, Cluster, ClusterError, app_kind_text, sync_text,
}
use yafu.AppDetail.{dot_color}
use yafu.Apps.{
  AppsState, set_status, set_kind, set_cluster, set_q, filtered, visible_selected,
  all_visible_selected, toggle_all, toggle_one, failing_count, suspended_count,
}
use yafu.Chrome.{status_chip, kind_badge}
use yafu.Markup.{
  is_empty, Piece, says, toned, dot, icon, row, button, input, select, checkbox, shown, or_text,
  each, Query, Call, loading_state, error_state, empty_state, action_failed, partial_fan_out,
  if_some,
}
use yafu.Pages.Rows.{RowAction, Calls, is_busy, last_error}

pub data AppsAction : Type 0 where
  reconcile_chosen toggle_rows : AppsAction
  type_q choose_status choose_kind choose_cluster : Text → AppsAction
  tick : Text → AppsAction
  open_app : Application → AppsAction
  on_row : RowAction Application → AppsAction

module _ (lower : Text → Text) (apps : List Application) where
  -- what an action does to the page's own state
  unfoldable pub on_apps_action : AppsAction → AppsState → AppsState
  unfolding toggle_all toggle_one
  on_apps_action toggle_rows st = toggle_all lower apps st
  on_apps_action (type_q t) st = set_q t st
  on_apps_action (choose_status v) st = set_status v st
  on_apps_action (choose_kind v) st = set_kind v st
  on_apps_action (choose_cluster v) st = set_cluster v st
  on_apps_action (tick id) st = toggle_one id st
  on_apps_action _ st = st

  abbrev chosen_label : ℕ → Bool → Text
  chosen_label n pending =
      if pending
      then codes "Reconciling…"
      else if ltb 0 n
      then codes "Reconcile " ++ decimal n
      else codes "Reconcile selected"

  unfoldable pub apps_head : AppsState → Bool → List (Piece AppsAction)
  apps_head st pending =
      let n = length (visible_selected lower apps st) in
      says (codes "Applications")
      ∷ says (
          decimal (length apps)
          ++ (codes " total · "
              ++ (decimal (failing_count apps)
                  ++ (codes " failing · "
                      ++ (decimal (suspended_count apps) ++ codes " suspended")))))
      ∷ says (codes "Kustomizations and HelmReleases across all registered clusters.")
      ∷ button record {
        label = chosen_label n pending;
        title =
            if n == 0
            then codes "Select one or more rows to reconcile"
            else codes "Reconcile " ++ (decimal n ++ codes " selected");
        pressed = none;
        disabled = n == 0 || pending;
        on_click = reconcile_chosen;
      }
      ∷ []

  -- the search, the three chips, and how many rows are shown
  unfoldable pub filter_bar : AppsState → List Cluster → List (Piece AppsAction)
  filter_bar st clusters =
      icon (codes "search")
      ∷ input (codes "Filter by name, namespace, cluster…") st.q type_q
      ∷ select st.filter.status
          ((codes "all", codes "All")
            ∷ (codes "failing", codes "Failing")
            ∷ (codes "degraded", codes "Degraded")
            ∷ (codes "progressing", codes "Progressing")
            ∷ (codes "healthy", codes "Healthy")
            ∷ (codes "paused", codes "Suspended")
            ∷ [])
          choose_status
      ∷ select st.filter.kind
          ((codes "all", codes "All")
            ∷ (codes "Kustomization", codes "Kustomization")
            ∷ (codes "HelmRelease", codes "HelmRelease")
            ∷ [])
          choose_kind
      ∷ select st.filter.cluster ((codes "all", codes "All") ∷ map (λ c. (c.id, c.name)) clusters)
          choose_cluster
      ∷ says (decimal (length (filtered lower apps st)) ++ (codes " of " ++ decimal (length apps)))
      ∷ []

abbrev app_button : Text → Text → Bool → RowAction Application → Piece AppsAction
app_button label title disabled action = button record {
  label = label;
  title = title;
  pressed = none;
  disabled = disabled;
  on_click = on_row action;
}

unfoldable pub app_row : AppsState → Calls Application → Application → List (Piece AppsAction)
unfolding status_chip kind_badge is_busy
app_row st calls a =
    let busy = is_busy (λ x. x.id) calls a in
    row (has a.id st.selected) (some (open_app a))
    ∷ checkbox (codes "Select " ++ a.name) (has a.id st.selected) false (λ _. tick a.id)
    ∷ dot (dot_color a.status)
    ∷ says a.name
    ∷ (shown a.suspended (icon (codes "pause") ∷ [])
        ++ (toned (kind_badge (app_kind_text a.kind)).color (app_kind_text a.kind)
            ∷ says a.ns
            ∷ says a.cluster
            ∷ toned (status_chip (sync_text a.sync) none).cls
                (status_chip (sync_text a.sync) none).text
            ∷ says (or_text a.source (codes "—"))
            ∷ (shown (truthy a.revision) (says (codes "·") ∷ says a.revision ∷ [])
                ++ (says a.age
                    ∷ app_button (codes "Reconcile " ++ a.name) (codes "Reconcile") busy
                        (RowAction.reconcile a)
                    ∷ (if a.suspended
                        then app_button (codes "Resume " ++ a.name) (codes "Resume") busy
                            (RowAction.resume a)
                        else app_button (codes "Suspend " ++ a.name) (codes "Suspend") busy
                            (RowAction.suspend a))
                    ∷ []))))

-- a key on a row opens it, if the row itself has the focus
abbrev pub on_row_key : (is_on_row : Bool) → Text → Application → Option AppsAction
on_row_key is_on_row key a =
    if is_on_row && (key =t codes "Enter" || key =t codes " ") then some (open_app a) else none

abbrev apps_hint : List Cluster → Text
apps_hint [] = codes "Register a cluster first."
apps_hint _ = codes "Flux has no Kustomizations or HelmReleases on the registered clusters."

abbrev pub apps_of : Option ApplicationsResponse → List Application
apps_of none = []
apps_of (some d) = d.applications

abbrev pub apps_errors : Option ApplicationsResponse → List ClusterError
apps_errors none = []
apps_errors (some d) = or_else d.errors []

module _ (lower : Text → Text) where
  -- the box of the head of the table, and the rows
  unfoldable pub apps_table :
      AppsState → Calls Application → List Application → List (Piece AppsAction)
  unfolding each app_row
  apps_table st calls apps =
      checkbox
        (if all_visible_selected lower apps st
          then codes "Deselect all rows"
          else codes "Select all rows")
        (all_visible_selected lower apps st) false (λ _. toggle_rows)
      ∷ each (app_row st calls) (filtered lower apps st)

  -- what stands under the filters: the three states look at the applications, the table at those
  -- that the filters let through
  unfoldable pub apps_body :
      AppsState
      → Calls Application
      → Query ApplicationsResponse
      → List Cluster
      → List (Piece AppsAction)
  unfolding loading_state error_state empty_state apps_table
  apps_body st calls q clusters =
      let apps = apps_of q.result in
      shown (q.is_loading && is_empty apps) (loading_state (codes "Loading applications…"))
      ++ (if_some q.error error_state
          ++ (shown
                (not q.is_loading
                  && ((elim q.error [ none ↦ true | some _ ↦ false ]) && is_empty apps))
                (empty_state (codes "No applications") (some (apps_hint clusters)))
              ++ shown (not (is_empty (filtered lower apps st))) (apps_table st calls apps)))

  unfoldable pub apps_page :
      AppsState
      → Calls Application
      → Call (List Application)
      → Query ApplicationsResponse
      → List Cluster
      → List (Piece AppsAction)
  unfolding apps_head filter_bar apps_body
  apps_page st calls many q clusters =
      let apps = apps_of q.result in
      apps_head lower apps st many.is_pending
      ++ (filter_bar lower apps st clusters
          ++ (action_failed (elim (last_error calls) [ none ↦ many.error | some e ↦ some e ])
              ++ (partial_fan_out (apps_errors q.result) ++ apps_body st calls q clusters)))
