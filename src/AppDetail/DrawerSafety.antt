-- ===== src/AppDetail/DrawerSafety.antt =====
-- web/src/pages/AppDetail.tsx, AppDetailDrawer: no two of its actions are under way at once, and the
-- keys and the marks of the tabs.
use yafu.Base.{
  ℕ, ◌+◌, ◌≤◌, ◌≡◌, refl, Bool, true, false, Bool-cases, Option, some, Text, ◌=t◌, In, keep, length,
  arith, inl, inr,
}
use yafu.ApiTypes.{Application}
use yafu.Markup.{Call, clickable}
use yafu.AppDetail.{TabId}
use yafu.AppDetail.Drawer.{
  Drawer, DrawerAction, on_drawer_action, drawer_buttons, on_tab_key, find_tab, tab_buttons,
  is_busy, arrow_right, arrow_left, close, reconcile, suspend, resume, choose_tab,
}

abbrev one_if : Bool → ℕ
one_if true = 1
one_if false = 0

-- how many of the three calls are under way
abbrev pub pending_calls : Drawer → ℕ
pending_calls s =
    one_if s.reconciling.is_pending + one_if s.suspending.is_pending + one_if s.resuming.is_pending

module _ (mutate : Application → Call Application → Call Application) where
  -- A step of the drawer: a click on a button of the head that is not disabled, the choice of a tab,
  -- or a mutation that tells of the end of its call or of nothing new. The application can be
  -- another one at each step, since the list is fetched again.
  pub data Step : Drawer → Drawer → Type 0 where
    clicks :
        (app : Application) (a : DrawerAction) (s : Drawer)
        → In a (clickable (drawer_buttons app s))
        → Step s (on_drawer_action mutate app a s)
    chooses :
        (app : Application) (t : TabId) (s : Drawer)
        → Step s (on_drawer_action mutate app (choose_tab t) s)
    reconcile_ends :
        (s : Drawer) (e : Option Text)
        → Step s (record s { reconciling = record s.reconciling { is_pending = false; error = e } })
    suspend_ends :
        (s : Drawer) (e : Option Text)
        → Step s (record s { suspending = record s.suspending { is_pending = false; error = e } })
    resume_ends :
        (s : Drawer) (e : Option Text)
        → Step s (record s { resuming = record s.resuming { is_pending = false; error = e } })

  pub data Reaches : Drawer → Drawer → Type 0 where
    stays : (s : Drawer) → Reaches s s
    goes : (s t u : Drawer) → Step s t → Reaches t u → Reaches s u

  -- While a call is under way, the head offers only to close the drawer.
  busy_offers :
      (app : Application) (a : DrawerAction) (s : Drawer)
      → is_busy s ≡ true
      → In a (clickable (drawer_buttons app s))
      → a ≡ close
  unfolding drawer_buttons
  busy_offers app a s b h = elim (Bool-cases app.suspended) [
    | inl e ↦ ground (arith, h)
    | inr e ↦ ground (arith, h)
  ]

  idle_calls : (s : Drawer) → is_busy s ≡ false → pending_calls s ≡ 0
  idle_calls s h = ground arith

  acting_alone :
      (app : Application) (a : DrawerAction) (s : Drawer)
      → pending_calls s ≡ 0
      → pending_calls (on_drawer_action mutate app a s) ≤ 1
  unfolding on_drawer_action
  acting_alone app close s h = omega (arith, h)
  acting_alone app reconcile s h = ground (arith, h)
  acting_alone app suspend s h = ground (arith, h)
  acting_alone app resume s h = ground (arith, h)
  acting_alone app (choose_tab t) s h = omega (arith, h)

  step_lem : (s t : Drawer) → Step s t → pending_calls s ≤ 1 → pending_calls t ≤ 1
  unfolding on_drawer_action
  step_lem s t (clicks app a _ offered) h = elim (Bool-cases (is_busy s)) [
    | inl b ↦ rw (busy_offers app a s b offered) h
    | inr b ↦ acting_alone app a s (idle_calls s b)
  ]
  step_lem s t (chooses app u _) h = h
  step_lem s t (reconcile_ends _ e) h = ground (arith, h)
  step_lem s t (suspend_ends _ e) h = ground (arith, h)
  step_lem s t (resume_ends _ e) h = ground (arith, h)

  -- In every state that the drawer reaches from one with no call under way, at most one of its three
  -- calls (reconcile, suspend, resume) is under way.
  pub Reaches-one_call : (s t : Drawer) → Reaches s t → pending_calls s ≡ 0 → pending_calls t ≤ 1
  Reaches-one_call s t r h = from s t r (omega (arith, h))
    where
      from : (s t : Drawer) → Reaches s t → pending_calls s ≤ 1 → pending_calls t ≤ 1
      from s t (stays _) p = p
      from s t (goes _ u _ x xs) p = from u t xs (step_lem s u x p)

-- An arrow key always chooses a tab, and the other arrow takes the choice back.
pub on_tab_key-back :
    (t : TabId)
    → ((u : TabId) × (on_tab_key arrow_right t ≡ some u) × (on_tab_key arrow_left u ≡ some t))
      × ((u : TabId) × (on_tab_key arrow_left t ≡ some u) × (on_tab_key arrow_right u ≡ some t))
unfolding on_tab_key find_tab ◌=t◌
on_tab_key-back TabId.overview = ((TabId.tree, refl, refl), (TabId.yaml, refl, refl))
on_tab_key-back TabId.tree = ((TabId.diff, refl, refl), (TabId.overview, refl, refl))
on_tab_key-back TabId.diff = ((TabId.events, refl, refl), (TabId.tree, refl, refl))
on_tab_key-back TabId.events = ((TabId.logs, refl, refl), (TabId.diff, refl, refl))
on_tab_key-back TabId.logs = ((TabId.history, refl, refl), (TabId.events, refl, refl))
on_tab_key-back TabId.history = ((TabId.yaml, refl, refl), (TabId.logs, refl, refl))
on_tab_key-back TabId.yaml = ((TabId.overview, refl, refl), (TabId.history, refl, refl))

-- Whatever the tab, exactly one of the seven tabs is in the tab order, and it is the selected one.
pub tab_buttons-one :
    (t : TabId)
    → (length (tab_buttons t) ≡ 7)
      × (length (keep (λ b. b.in_tab_order) (tab_buttons t)) ≡ 1)
      × (keep (λ b. b.in_tab_order) (tab_buttons t) ≡ keep (λ b. b.is_selected) (tab_buttons t))
unfolding tab_buttons ◌=t◌
tab_buttons-one TabId.overview = (refl, refl, refl)
tab_buttons-one TabId.tree = (refl, refl, refl)
tab_buttons-one TabId.diff = (refl, refl, refl)
tab_buttons-one TabId.events = (refl, refl, refl)
tab_buttons-one TabId.logs = (refl, refl, refl)
tab_buttons-one TabId.history = (refl, refl, refl)
tab_buttons-one TabId.yaml = (refl, refl, refl)
