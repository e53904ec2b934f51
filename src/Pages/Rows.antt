-- ===== src/Pages/Rows.antt =====
-- web/src/pages: the buttons of a row, which Images.tsx, Alerts.tsx and Sources.tsx share, and which
-- of them are disabled. `mutate` of a mutation is a parameter.
use yafu.Base.{
  ◌≡◌, Bool, true, false, ◌&&◌, ◌||◌, Option, none, some, List, [], ◌∷◌, ◌++◌, Text, codes, ◌=t◌,
  if◌then◌else◌,
}
use yafu.Markup.{Piece, Call, button, first_error}

pub data RowAction (V : Type 0) : Type 0 where
  reconcile suspend resume : V → RowAction V

-- What the three mutations of a page return.
pub record Calls (V : Type 0) : Type 0 where
  pub reconciling : Call V
  pub suspending : Call V
  pub resuming : Call V

module _ {V : Type 0} where
  abbrev pub last_error : Calls V → Option Text
  last_error c = first_error c.reconciling.error c.suspending.error c.resuming.error

  module _ (mutate : V → Call V → Call V) where
    unfoldable pub on_row_action : RowAction V → Calls V → Calls V
    on_row_action (reconcile v) c = record c { reconciling = mutate v c.reconciling }
    on_row_action (suspend v) c = record c { suspending = mutate v c.suspending }
    on_row_action (resume v) c = record c { resuming = mutate v c.resuming }

  module _ (id : V → Text) where
    abbrev is_id : Option V → V → Bool
    is_id none u = false
    is_id (some v) u = id v =t id u

    -- `m.isPending && m.variables?.id === u.id`
    abbrev pub waits_for : Call V → V → Bool
    waits_for c u = c.is_pending && is_id c.variables u

    unfoldable pub is_busy : Calls V → V → Bool
    is_busy c u = waits_for c.reconciling u || (waits_for c.suspending u || waits_for c.resuming u)

    abbrev row_button : Text → Text → Bool → RowAction V → Piece (RowAction V)
    row_button label title disabled action = button record {
      label = label;
      title = title;
      pressed = none;
      disabled = disabled;
      on_click = action;
    }

    unfoldable pub row_buttons :
        (name : Text) (suspended : Bool) → Calls V → V → List (Piece (RowAction V))
    unfolding is_busy
    row_buttons name suspended c u =
        row_button (codes "Reconcile " ++ name) (codes "Reconcile") (is_busy c u) (reconcile u)
        ∷ (if suspended
            then row_button (codes "Resume " ++ name) (codes "Resume") (is_busy c u) (resume u)
            else row_button (codes "Suspend " ++ name) (codes "Suspend") (is_busy c u) (suspend u))
        ∷ []

-- What is documented of `mutate`: the call is under way, and the mutation has its argument, that of
-- the latest call.
abbrev pub IsMutate : {V : Type 0} → (V → Call V → Call V) → Type 0
IsMutate {V} mutate =
    (v : V) (c : Call V) → ((mutate v c).is_pending ≡ true) × ((mutate v c).variables ≡ some v)
