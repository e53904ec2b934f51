-- ===== src/Apps/Refine.antt =====
-- web/src/pages/Apps.tsx: the selection as a set of ids, and the page's handlers as changes of it.
use mathlib.Core.Path.{fun_ext}
use yafu.Base.{
  ◌≤◌, ◌≡◌, refl, ap, ◌∙◌, ltb, ◌==◌, Bool, true, false, ◌&&◌, not, List, [], ◌∷◌, map, Text, ◌=t◌,
  has, keep, length, if◌then◌else◌, arith,
}
use yafu.ApiTypes.{Application}
use yafu.Apps.{
  AppsState, FilterState, filtered, is_visible, all_visible_selected, toggle_all, toggle_one,
  clear_selection,
}
use yafu.Apps.Selection.{has-toggle_all, has-toggle_one}
use yafu.Apps.View.{
  AppsAction, on_apps_action, reconcile_chosen, toggle_rows, type_q, choose_status, choose_kind,
  choose_cluster, tick, open_app, on_row,
}

-- The page as its user sees it: the filters, and which ids are selected.
pub record Spec : Type 0 where
  pub filter : FilterState
  pub q : Text
  pub chosen : Text → Bool

abbrev pub view : AppsState → Spec
view st = record { filter = st.filter; q = st.q; chosen = λ id. has id st.selected }

abbrev pub every : (Application → Bool) → List Application → Bool
every p [] = true
every p (a ∷ as') = p a && every p as'

-- What happens to the page: an action, or the success of the bulk reconciliation.
pub data Event : Type 0 where
  acts : AppsAction → Event
  reconciled : Event

length-keep-le : (p : Application → Bool) (xs : List Application) → length (keep p xs) ≤ length xs
length-keep-le p [] = omega arith
length-keep-le p (x ∷ xs) = ground (arith, length-keep-le p xs)

every-count :
    (p : Application → Bool) (xs : List Application)
    → (length (keep p xs) == length xs) ≡ every p xs
every-count p [] = refl
every-count p (x ∷ xs) = ground (arith, every-count p xs, length-keep-le p xs)

module _ (lower : Text → Text) (apps : List Application) where
  -- the rows that the filters show
  abbrev pub rows_of : Spec → List Application
  rows_of s = filtered lower apps (record { filter = s.filter; q = s.q; selected = [] })

  abbrev pub all_chosen : Spec → Bool
  all_chosen s = ltb 0 (length (rows_of s)) && every (λ a. s.chosen a.id) (rows_of s)

  -- The box in the head selects the rows, or none of them where each was selected; the box of a row
  -- turns that row over. Ids that no shown row has keep what they were.
  abbrev pub spec_action : AppsAction → Spec → Spec
  spec_action toggle_rows s = record s {
    chosen = λ id. if has id (map (λ a. a.id) (rows_of s)) then not (all_chosen s) else s.chosen id;
  }
  spec_action (type_q t) s = record s { q = t }
  spec_action (choose_status v) s = record s { filter = record s.filter { status = v } }
  spec_action (choose_kind v) s = record s { filter = record s.filter { kind = v } }
  spec_action (choose_cluster v) s = record s { filter = record s.filter { cluster = v } }
  spec_action (tick id) s = record s {
    chosen = λ other. if id =t other then not (s.chosen id) else s.chosen other;
  }
  spec_action _ s = s

  abbrev pub on_event : Event → AppsState → AppsState
  on_event (acts a) st = on_apps_action lower apps a st
  on_event reconciled st = clear_selection st

  abbrev pub spec_event : Event → Spec → Spec
  spec_event (acts a) s = spec_action a s
  spec_event reconciled s = record s { chosen = λ id. false }

  abbrev pub run : List Event → AppsState → AppsState
  run [] st = st
  run (e ∷ es) st = run es (on_event e st)

  abbrev pub replay : List Event → Spec → Spec
  replay [] s = s
  replay (e ∷ es) s = replay es (spec_event e s)

  all_lem : (st : AppsState) → all_visible_selected lower apps st ≡ all_chosen (view st)
  unfolding is_visible
  all_lem st =
      ap (λ b. ltb 0 (length (filtered lower apps st)) && b)
        (every-count (λ a. has a.id st.selected) (filtered lower apps st))

  toggle_rows_lem :
      (st : AppsState) (id : Text)
      → has id (toggle_all lower apps st).selected ≡ (spec_action toggle_rows (view st)).chosen id
  unfolding is_visible
  toggle_rows_lem st id =
      has-toggle_all lower apps id st
      ∙ ap
          (λ (b : Bool).
            if has id (map (λ a. a.id) (rows_of (view st))) then not b else has id st.selected)
          (all_lem st)

  with_chosen : Spec → (Text → Bool) → Spec
  with_chosen s f = record s { chosen = f }

  action_lem :
      (a : AppsAction) (st : AppsState)
      → view (on_apps_action lower apps a st) ≡ spec_action a (view st)
  unfolding on_apps_action with_chosen toggle_all toggle_one
  action_lem reconcile_chosen st = refl
  action_lem toggle_rows st = ap (with_chosen (view st)) (fun_ext λ id. toggle_rows_lem st id)
  action_lem (type_q t) st = refl
  action_lem (choose_status v) st = refl
  action_lem (choose_kind v) st = refl
  action_lem (choose_cluster v) st = refl
  action_lem (tick id) st = ap (with_chosen (view st)) (fun_ext λ other. has-toggle_one id other st)
  action_lem (open_app a) st = refl
  action_lem (on_row a) st = refl

  event_lem : (e : Event) (st : AppsState) → view (on_event e st) ≡ spec_event e (view st)
  event_lem (acts a) st = action_lem a st
  event_lem reconciled st = refl

  -- The page refines its specification: after any sequence of actions and of successes of the bulk
  -- reconciliation, from any state, the filters and the ids that are selected are those of the replay
  -- on the set of the selected ids.
  pub run_refines : (es : List Event) (st : AppsState) → view (run es st) ≡ replay es (view st)
  run_refines [] st = refl
  run_refines (e ∷ es) st = run_refines es (on_event e st) ∙ ap (replay es) (event_lem e st)
