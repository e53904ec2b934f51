-- ===== src/Apps.antt =====
-- web/src/pages/Apps.tsx: the filters of the applications page, the selection of rows, and the bulk
-- reconciliation of the selected ones. `toLowerCase` is a parameter, since it depends on Unicode.
pub mod Selection
pub mod View
pub mod Blank
pub mod Refine
mod Tests
use yafu.Base.{
  ℕ, ltb, ◌==◌, Bool, true, false, ◌&&◌, ◌||◌, not, Option, none, some, List, [], ◌∷◌, ◌++◌, Text,
  codes, ◌=t◌, has, add, discard, truthy, includes, keep, length, if◌then◌else◌,
}
use yafu.ApiTypes.{Application, Status, status_text, app_kind_text}
use yafu.DepGraph.{is_failing}

pub record FilterState : Type 0 where
  pub status : Text
  pub kind : Text
  pub cluster : Text

abbrev pub no_filter : FilterState
no_filter = record { status = codes "all"; kind = codes "all"; cluster = codes "all" }

-- The state of the page: `useState` of the filter, of the search, and of the selected ids.
pub record AppsState : Type 0 where
  pub filter : FilterState
  pub q : Text
  pub selected : List Text

abbrev pub initial : AppsState
initial = record { filter = no_filter; q = []; selected = [] }

abbrev pub set_status : Text → AppsState → AppsState
set_status v st = record st { filter = record (st.filter) { status = v } }

abbrev pub set_kind : Text → AppsState → AppsState
set_kind v st = record st { filter = record (st.filter) { kind = v } }

abbrev pub set_cluster : Text → AppsState → AppsState
set_cluster v st = record st { filter = record (st.filter) { cluster = v } }

abbrev pub set_q : Text → AppsState → AppsState
set_q v st = record st { q = v }

-- a filter's value lets a field through
abbrev pub lets : Text → Text → Bool
lets wanted field = wanted =t codes "all" || field =t wanted

unfoldable pub add_ids : List Application → List Text → List Text
add_ids [] ids = ids
add_ids (a ∷ as') ids = add_ids as' (add a.id ids)

unfoldable pub delete_ids : List Application → List Text → List Text
delete_ids [] ids = ids
delete_ids (a ∷ as') ids = delete_ids as' (discard a.id ids)

module _ (lower : Text → Text) (apps : List Application) where
  unfoldable pub is_visible : AppsState → Application → Bool
  is_visible st a =
      lets st.filter.status (status_text a.status)
      && (lets st.filter.kind (app_kind_text a.kind)
          && (lets st.filter.cluster a.cluster_id
              && (not (truthy st.q)
                  || includes (lower (a.name ++ b' ' ∷ (a.ns ++ b' ' ∷ a.cluster))) (lower st.q))))

  abbrev pub filtered : AppsState → List Application
  filtered st = keep (is_visible st) apps

  abbrev pub visible_selected : AppsState → List Application
  visible_selected st = keep (λ a. has a.id st.selected) (filtered st)

  abbrev pub all_visible_selected : AppsState → Bool
  all_visible_selected st =
      ltb 0 (length (filtered st)) && length (visible_selected st) == length (filtered st)

  abbrev pub some_visible_selected : AppsState → Bool
  some_visible_selected st = ltb 0 (length (visible_selected st)) && not (all_visible_selected st)

  unfoldable pub toggle_all : AppsState → AppsState
  unfolding add_ids delete_ids
  toggle_all st = record st {
    selected =
        if all_visible_selected st
        then delete_ids (filtered st) st.selected
        else add_ids (filtered st) st.selected;
  }

  -- What the button posts: nothing without a selection.
  unfoldable pub reconcile_selected : AppsState → Option (List Application)
  reconcile_selected st =
      if length (visible_selected st) == 0 then none else some (visible_selected st)

unfoldable pub toggle_one : Text → AppsState → AppsState
toggle_one id st = record st {
  selected = if has id st.selected then discard id st.selected else add id st.selected;
}

-- `onSuccess` of the bulk reconciliation
abbrev pub clear_selection : AppsState → AppsState
clear_selection st = record st { selected = [] }

abbrev pub failing_count : List Application → ℕ
failing_count apps = length (keep (λ a. is_failing a.status) apps)

abbrev pub suspended_count : List Application → ℕ
suspended_count apps = length (keep (λ a. a.suspended) apps)
