-- ===== src/Markup.antt =====
-- What the pages and the components show: the pieces of a view in the order of the document, with
-- their handlers; and web/src/components/States.tsx, Stat.tsx and FilterChip.tsx. Inline styles and
-- class names stand in a view only where they depend on the state.
pub mod Listing
pub mod Clicks
mod Tests
use yafu.Base.{
  ℕ, zero, suc, ◌+◌, ltb, Bool, true, false, ◌&&◌, ◌||◌, not, Option, none, some, List, [], ◌∷◌,
  ◌++◌, Text, codes, decimal, ◌=t◌, truthy, is_some, join, if◌then◌else◌,
}
use yafu.ApiTypes.{ClusterError}

-- A button: what it says, its title, whether it is pressed or chosen where it says so.
pub record Button (A : Type 0) : Type 0 where
  pub label : Text
  pub title : Text
  pub pressed : Option Bool
  pub disabled : Bool
  pub on_click : A

-- A piece of a view whose handlers do actions of the type `A`.
pub data Piece (A : Type 0) : Type 0 where
  -- text
  says : Text → Piece A
  -- text whose colour or class depends on the state
  toned : Text → Text → Piece A
  -- a mark of a colour
  dot : Text → Piece A
  icon : Text → Piece A
  button : Button A → Piece A
  link : Text → Text → Piece A
  -- an input of text: its label, its value, its handler
  input : Text → Text → (Text → A) → Piece A
  -- a choice: its value, its options with what they say, its handler
  select : Text → List (Text × Text) → (Text → A) → Piece A
  -- a box to tick: its label, whether it is ticked, whether it is disabled, its handler
  checkbox : Text → Bool → Bool → (Bool → A) → Piece A
  -- the start of a row or an item: whether it is selected, what a click does
  row : Bool → Option A → Piece A

module _ {ℓ} {B : Type ℓ} where
  -- `b && x`
  abbrev pub shown : Bool → List B → List B
  shown true ps = ps
  shown false ps = []

module _ {ℓ κ} {B : Type ℓ} {C : Type κ} where
  -- `xs.map(f)`, the pieces one after the other
  unfoldable pub each : (B → List C) → List B → List C
  each f [] = []
  each f (x ∷ xs) = f x ++ each f xs

  -- `o && f(o)`
  abbrev pub if_some : Option B → (B → List C) → List C
  if_some none f = []
  if_some (some x) f = f x

-- `xs.length === 0`
abbrev pub is_empty : {A : Type 0} → List A → Bool
is_empty [] = true
is_empty _ = false

-- `s || t`
abbrev pub or_text : Text → Text → Text
or_text s t = if truthy s then s else t

-- `o || t`
abbrev pub text_or : Option Text → Text → Text
text_or none t = t
text_or (some s) t = or_text s t

-- `s || '—'`
abbrev pub or_dash : Option Text → Text
or_dash o = text_or o (codes "—")

-- `o && f(o)` for a text
abbrev pub if_text {ℓ} : {C : Type ℓ} → Option Text → (Text → List C) → List C
if_text none f = []
if_text (some s) f = shown (truthy s) (f s)

-- What `useQuery` returns: the data, whether the first call is under way, the error's message.
pub record Query (D : Type 0) : Type 0 where
  pub result : Option D
  pub is_loading : Bool
  pub error : Option Text

-- What `useMutation` returns: whether the last call is under way, its argument, its error's message.
pub record Call (V : Type 0) : Type 0 where
  pub is_pending : Bool
  pub variables : Option V
  pub error : Option Text

-- `a.error || b.error || c.error`
abbrev pub first_error : Option Text → Option Text → Option Text → Option Text
first_error (some e) _ _ = some e
first_error none (some e) _ = some e
first_error none none e = e

module _ {A : Type 0} where
  unfoldable pub loading_state : Text → List (Piece A)
  loading_state label = icon (codes "spinner") ∷ says label ∷ []

  unfoldable pub error_state : Text → List (Piece A)
  error_state message = says (codes "API error") ∷ says message ∷ []

  unfoldable pub empty_state : Text → Option Text → List (Piece A)
  empty_state title hint = says title ∷ if_text hint (λ h. says h ∷ [])

  unfoldable pub coming_soon : Text → List (Piece A)
  unfolding empty_state
  coming_soon feature = empty_state (feature ++ codes " — coming in v0.2") (
      some
        (codes "The backend doesn't expose this resource yet. Track progress on the yafu roadmap."))

  -- The part that the lists of the pages and the tabs share: it waits, or shows the error, or says
  -- that there is nothing, or shows the content.
  unfoldable pub listing :
      Text → Text → Option Text → Bool → Option Text → Bool → List (Piece A) → List (Piece A)
  unfolding loading_state error_state empty_state
  listing waiting title hint is_loading error empty content =
      shown (is_loading && empty) (loading_state waiting)
      ++ (if_some error error_state
          ++ (shown (not is_loading && (not (is_some error) && empty)) (empty_state title hint)
              ++ shown (not empty) content))

  -- the panel of the last failed action
  abbrev pub action_failed : Option Text → List (Piece A)
  action_failed e = if_some e (λ m. says (codes "action failed:") ∷ says m ∷ [])

  -- each failed cluster, with a dot between two
  abbrev pub cluster_failures : ℕ → List ClusterError → List (Piece A)
  cluster_failures i [] = []
  cluster_failures i (e ∷ es) =
      says ((if ltb 0 i then codes " · " else []) ++ (e.cluster ++ codes ": " ++ e.error))
      ∷ cluster_failures (suc i) es

  abbrev pub partial_fan_out : List ClusterError → List (Piece A)
  partial_fan_out [] = []
  partial_fan_out (e ∷ es) = says (codes "partial fan-out:") ∷ cluster_failures 0 (e ∷ es)

  -- components/Stat.tsx
  unfoldable pub stat : Text → Text → Option Text → List (Piece A) → Text → List (Piece A)
  stat label value of delta tone =
      toned tone label ∷ says value ∷ (if_some of (λ o. says (codes "/ " ++ o) ∷ []) ++ delta)

-- The actions of the buttons and the boxes that are not disabled, and of the rows that take a click.
abbrev pub clickable : {A : Type 0} → List (Piece A) → List A
clickable [] = []
clickable (button b ∷ ps) = shown (not b.disabled) (b.on_click ∷ []) ++ clickable ps
clickable (checkbox _ ticked disabled f ∷ ps) =
    shown (not disabled) (f (not ticked) ∷ []) ++ clickable ps
clickable (row _ (some a) ∷ ps) = a ∷ clickable ps
clickable (_ ∷ ps) = clickable ps

-- components/FilterChip.tsx: the menu that opens under the chip.
pub data ChipAction : Type 0 where
  toggle press_outside : ChipAction
  pick : Text → ChipAction

-- what the chip reports to its parent
abbrev pub picked : ChipAction → Option Text
picked (pick v) = some v
picked _ = none

abbrev pub on_chip_action : ChipAction → Bool → Bool
on_chip_action toggle is_open = not is_open
on_chip_action press_outside is_open = false
on_chip_action (pick v) is_open = false

abbrev pub label_of : Text → List (Text × Text) → Text
label_of value [] = value
label_of value ((v, l) ∷ options) = if v =t value then l else label_of value options

unfoldable pub chip_view : Text → Text → List (Text × Text) → Bool → List (Piece ChipAction)
unfolding each
chip_view label value options is_open =
    toned (if value =t codes "all" then [] else codes "active") (label ++ codes ":")
    ∷ button record {
      label = label_of value options;
      title = [];
      pressed = none;
      disabled = false;
      on_click = toggle;
    }
    ∷ shown is_open (
        each
          (λ o.
            row (o.0 =t value) (some (pick o.0))
            ∷ toned (if o.0 =t value then codes "var(--accent-ink)" else codes "var(--ink)") o.1
            ∷ [])
          options)
