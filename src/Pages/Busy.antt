-- ===== src/Pages/Busy.antt =====
-- web/src/pages/Images.tsx, Alerts.tsx and Sources.tsx: for how long a row's buttons are disabled.
use yafu.Base.{
  ◌≡◌, ◌≢◌, refl, Bool, true, false, Bool-cases, [], Text, ◌=t◌, =t_refl, =t_eq, In, inl, inr,
  arith,
}
use yafu.Markup.{Call, clickable}
use yafu.Pages.Rows.{
  RowAction, reconcile, suspend, resume, Calls, on_row_action, is_busy, waits_for, row_buttons,
  IsMutate,
}

module _ {V : Type 0} (id : V → Text) (mutate : V → Call V → Call V)
    (documented : IsMutate mutate) where
  -- the item that an action is about
  abbrev pub subject : RowAction V → V
  subject (reconcile v) = v
  subject (suspend v) = v
  subject (resume v) = v

  waits-mutate : (v : V) (c : Call V) → waits_for id (mutate v c) v ≡ true
  waits-mutate v c = rw (((documented v c).0), ((documented v c).1)) (=t_refl (id v))

  waits-other : (v u : V) (c : Call V) → id v ≢ id u → waits_for id (mutate v c) u ≡ false
  waits-other v u c other = elim (Bool-cases (id v =t id u)) [
    | inl e ↦ absurd (other (=t_eq (id v) (id u) e))
    | inr e ↦ rw (((documented v c).0), ((documented v c).1)) e
  ]

  busy-action :
      (a : RowAction V) (c : Calls V) → is_busy id (on_row_action mutate a c) (subject a) ≡ true
  unfolding is_busy on_row_action
  busy-action (reconcile v) c = rw (waits-mutate v c.reconciling) refl
  busy-action (suspend v) c = ground (arith, waits-mutate v c.suspending)
  busy-action (resume v) c = ground (arith, waits-mutate v c.resuming)

  busy_buttons :
      (name : Text) (suspended : Bool) (c : Calls V) (u : V)
      → is_busy id c u ≡ true
      → clickable (row_buttons id name suspended c u) ≡ []
  unfolding row_buttons
  busy_buttons name true c u h = rw h refl
  busy_buttons name false c u h = rw h refl

  -- As soon as a button of a row is clicked, none of the row's buttons can be clicked, where `mutate`
  -- puts the call under way with its argument.
  pub buttons-on_row_action :
      (name : Text) (suspended : Bool) (a : RowAction V) (c : Calls V)
      → clickable (row_buttons id name suspended (on_row_action mutate a c) (subject a)) ≡ []
  buttons-on_row_action name suspended a c =
      busy_buttons name suspended (on_row_action mutate a c) (subject a) (busy-action a c)

  idle_buttons :
      (name : Text) (suspended : Bool) (c : Calls V) (u : V)
      → is_busy id c u ≡ false
      → In (reconcile u) (clickable (row_buttons id name suspended c u))
  unfolding row_buttons
  idle_buttons name true c u h = rw h (inl refl)
  idle_buttons name false c u h = rw h (inl refl)

  second_call_idle :
      (u v : V) (c : Calls V)
      → id v ≢ id u
      → c.suspending.is_pending ≡ false
      → c.resuming.is_pending ≡ false
      → is_busy id (on_row_action mutate (reconcile v) (on_row_action mutate (reconcile u) c)) u
        ≡ false
  unfolding is_busy on_row_action
  second_call_idle u v c other s r = rw (waits-other v u (mutate u c.reconciling) other, s, r) refl

  -- A second reconcile, of another row, enables the first row's buttons again, though the call of the
  -- first row has not ended, where `mutate` leaves a mutation the argument of its latest call only, the
  -- rows have different ids, and no other call is under way.
  pub buttons-second_call :
      (name : Text) (suspended : Bool) (u v : V) (c : Calls V)
      → id v ≢ id u
      → c.suspending.is_pending ≡ false
      → c.resuming.is_pending ≡ false
      → In (reconcile u) (
          clickable (
            row_buttons id name suspended
              (on_row_action mutate (reconcile v) (on_row_action mutate (reconcile u) c))
              u))
  buttons-second_call name suspended u v c other s r =
      idle_buttons name suspended
        (on_row_action mutate (reconcile v) (on_row_action mutate (reconcile u) c)) u
        (second_call_idle u v c other s r)
