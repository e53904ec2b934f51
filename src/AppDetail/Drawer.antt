-- ===== src/AppDetail/Drawer.antt =====
-- web/src/pages/AppDetail.tsx, AppDetailDrawer and OverviewTab: the head of the drawer, its buttons
-- and tabs, and the first tab. `mutate` of a mutation is a parameter.
use yafu.Base.{
  ℕ, suc, ◌+◌, ◌-◌, ◌%◌, Bool, false, ◌||◌, Option, none, some, or_else, List, [], ◌∷◌, ◌++◌, map,
  Text, codes, ◌=t◌, truthy, length, get_elem?, if◌then◌else◌,
}
use yafu.ApiTypes.{Application, app_kind_text, status_text, sync_text}
use yafu.Chrome.{status_chip}
use yafu.Markup.{
  Piece, says, toned, dot, icon, button, shown, if_text, or_text, Call, first_error, action_failed,
}
use yafu.AppDetail.{TabId, tabs, dot_color}

abbrev pub tab_text : TabId → Text
tab_text TabId.overview = codes "overview"
tab_text TabId.tree = codes "tree"
tab_text TabId.diff = codes "diff"
tab_text TabId.events = codes "events"
tab_text TabId.logs = codes "logs"
tab_text TabId.history = codes "history"
tab_text TabId.yaml = codes "yaml"

-- `x.id === tab`
abbrev pub same_tab : TabId → TabId → Bool
same_tab t u = tab_text t =t tab_text u

abbrev pub next_index : Option ℕ → Option ℕ
next_index none = none
next_index (some n) = some (suc n)

-- `TABS.findIndex(…)`; `none` stands for -1
unfoldable pub find_tab : TabId → List (TabId × Text) → Option ℕ
find_tab t [] = none
find_tab t (u ∷ us) = if same_tab u.0 t then some 0 else next_index (find_tab t us)

pub data TabKey : Type 0 where
  arrow_right arrow_left other : TabKey

-- the index that the key moves to; with an index of -1 the sums are 0 and 5
abbrev pub tab_moves : TabKey → Option ℕ → Option ℕ
tab_moves arrow_right (some i) = some ((i + 1) % length tabs)
tab_moves arrow_right none = some 0
tab_moves arrow_left (some i) = some ((i + length tabs - 1) % length tabs)
tab_moves arrow_left none = some (length tabs - 2)
tab_moves other i = none

abbrev tab_at : Option ℕ → Option TabId
tab_at none = none
tab_at (some n) = elim (get_elem? tabs n) [ none ↦ none | some t ↦ some t.0 ]

-- `onKeyDown` of a tab: the tab that is chosen, and `none` for a key that is not handled
unfoldable pub on_tab_key : TabKey → TabId → Option TabId
unfolding find_tab
on_tab_key key tab = tab_at (tab_moves key (find_tab tab tabs))

pub data DrawerAction : Type 0 where
  close reconcile suspend resume : DrawerAction
  choose_tab : TabId → DrawerAction

-- The state of the drawer: the tab, and what the three mutations return.
pub record Drawer : Type 0 where
  pub tab : TabId
  pub reconciling : Call Application
  pub suspending : Call Application
  pub resuming : Call Application

abbrev pub is_busy : Drawer → Bool
is_busy s = s.reconciling.is_pending || (s.suspending.is_pending || s.resuming.is_pending)

abbrev pub last_error : Drawer → Option Text
last_error s = first_error s.reconciling.error s.suspending.error s.resuming.error

-- `onKey` of the window
abbrev pub on_window_key : Text → Option DrawerAction
on_window_key key = if key =t codes "Escape" then some close else none

module _ (mutate : Application → Call Application → Call Application) where
  unfoldable pub on_drawer_action : Application → DrawerAction → Drawer → Drawer
  on_drawer_action app close s = s
  on_drawer_action app reconcile s = record s { reconciling = mutate app s.reconciling }
  on_drawer_action app suspend s = record s { suspending = mutate app s.suspending }
  on_drawer_action app resume s = record s { resuming = mutate app s.resuming }
  on_drawer_action app (choose_tab t) s = record s { tab = t }

abbrev pub action_button : Text → Text → Bool → DrawerAction → Piece DrawerAction
action_button label title disabled action =
    button record {
      label = label;
      title = title;
      pressed = none;
      disabled = disabled;
      on_click = action;
    }

abbrev suspended_chip : Bool → List (Piece DrawerAction)
suspended_chip suspended =
    shown suspended (icon (codes "pause") ∷ toned (codes "chip paused") (codes "Suspended") ∷ [])

-- the kind, the name, and where the application comes from
unfoldable pub drawer_titles : Application → List (Piece DrawerAction)
drawer_titles app =
    says (app_kind_text app.kind)
    ∷ dot (dot_color app.status)
    ∷ says app.name
    ∷ (suspended_chip app.suspended
        ++ (says app.cluster
            ∷ says (codes "/")
            ∷ says app.ns
            ∷ shown (truthy app.source) (
                says (codes "·")
                ∷ says app.source
                ∷ shown (truthy app.revision) (says (codes "@") ∷ says app.revision ∷ []))))

-- the buttons of the head
unfoldable pub drawer_buttons : Application → Drawer → List (Piece DrawerAction)
drawer_buttons app s =
    action_button (if s.reconciling.is_pending then codes "Reconciling…" else codes "Reconcile")
      (codes "Trigger reconcile") (is_busy s) reconcile
    ∷ (if app.suspended
        then action_button (if s.resuming.is_pending then codes "Resuming…" else codes "Resume")
            (codes "Resume reconciliation") (is_busy s) resume
        else action_button
            (if s.suspending.is_pending then codes "Suspending…" else codes "Suspend")
            (codes "Suspend reconciliation") (is_busy s) suspend)
    ∷ action_button [] (codes "Close application details") false close
    ∷ []

-- a tab: whether it is chosen, and whether the tab key reaches it
pub record TabButton : Type 0 where
  pub id : Text
  pub label : Text
  pub is_selected : Bool
  pub in_tab_order : Bool
  pub controls : Text
  pub on_click : DrawerAction

abbrev pub tab_button : TabId → TabId × Text → TabButton
tab_button tab (t, label) = record {
  id = codes "app-tab-" ++ tab_text t;
  label = label;
  is_selected = same_tab tab t;
  in_tab_order = same_tab tab t;
  controls = codes "app-tabpanel-" ++ tab_text t;
  on_click = choose_tab t;
}

unfoldable pub tab_buttons : TabId → List TabButton
tab_buttons tab = map (tab_button tab) tabs

-- the identifiers of the panel under the tabs, and of the tab that labels it
abbrev pub panel_id : TabId → Text
panel_id tab = codes "app-tabpanel-" ++ tab_text tab

abbrev pub panel_labelled_by : TabId → Text
panel_labelled_by tab = codes "app-tab-" ++ tab_text tab

-- the head of the drawer, with the error of the last action
unfoldable pub drawer_head : Application → Drawer → List (Piece DrawerAction)
unfolding drawer_titles drawer_buttons
drawer_head app s = drawer_titles app ++ (drawer_buttons app s ++ action_failed (last_error s))

-- OverviewTab: the rows of the status panel, and the message
unfoldable pub overview_rows : Application → List (Text × Text)
overview_rows app =
    (codes "Sync", (status_chip (sync_text app.sync) none).text)
    ∷ (codes "Health", (status_chip (status_text app.status) none).text)
    ∷ (codes "Cluster", app.cluster)
    ∷ (codes "Namespace", app.ns)
    ∷ (codes "Source", or_text app.source (codes "—"))
    ∷ (codes "Revision", or_text app.revision (codes "—"))
    ∷ (if_text app.replicas (λ r. (codes "Replicas", r) ∷ [])
        ++ ((codes "Last applied", app.age) ∷ []))

abbrev pub overview_message : Application → Text
overview_message app = or_text (or_else app.message []) (codes "no status message reported")
