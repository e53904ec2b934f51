-- ===== src/AppDetail/RenderDiff.antt =====
-- web/src/pages/AppDetail.tsx: the rendered diff, its counts, its labels and its rail. `toLowerCase` is a
-- parameter.
use yafu.Base.{
  ℕ, suc, ◌+◌, ◌-◌, min, ◌==◌, Bool, ◌||◌, not, Option, none, some, or_else, List, [], ◌∷◌, ◌++◌,
  Text, codes, truthy, includes, length, get_elem?, if◌then◌else◌,
}
use yafu.ApiTypes.{RenderResource, RenderResourceStatus}

-- RenderDiffTab: how often each status occurs.
pub record StatusCounts : Type 0 where
  pub in_sync : ℕ
  pub drifted : ℕ
  pub missing_on_cluster : ℕ
  pub extra_on_cluster : ℕ
  pub render_error : ℕ

abbrev pub no_counts : StatusCounts
no_counts = record {
  in_sync = 0;
  drifted = 0;
  missing_on_cluster = 0;
  extra_on_cluster = 0;
  render_error = 0;
}

abbrev pub count_one : RenderResourceStatus → StatusCounts → StatusCounts
count_one RenderResourceStatus.in_sync c = record c { in_sync = c.in_sync + 1 }
count_one RenderResourceStatus.drifted c = record c { drifted = c.drifted + 1 }
count_one RenderResourceStatus.missing_on_cluster c = record c {
  missing_on_cluster = c.missing_on_cluster + 1;
}
count_one RenderResourceStatus.extra_on_cluster c = record c {
  extra_on_cluster = c.extra_on_cluster + 1;
}
count_one RenderResourceStatus.render_error c = record c { render_error = c.render_error + 1 }

unfoldable pub count_by_status : StatusCounts → List RenderResource → StatusCounts
count_by_status c [] = c
count_by_status c (r ∷ rs) = count_by_status (count_one r.status c) rs

pub data Tone : Type 0 where
  ok warn info err : Tone

abbrev pub status_tone : RenderResourceStatus → Tone
status_tone RenderResourceStatus.in_sync = ok
status_tone RenderResourceStatus.drifted = warn
status_tone RenderResourceStatus.missing_on_cluster = info
status_tone RenderResourceStatus.extra_on_cluster = err
status_tone RenderResourceStatus.render_error = err

abbrev pub status_label : RenderResourceStatus → Text
status_label RenderResourceStatus.in_sync = codes "In sync"
status_label RenderResourceStatus.drifted = codes "Drifted"
status_label RenderResourceStatus.missing_on_cluster = codes "Missing on cluster"
status_label RenderResourceStatus.extra_on_cluster = codes "Extra on cluster"
status_label RenderResourceStatus.render_error = codes "Render error"

abbrev pub short_status : RenderResourceStatus → Text
short_status RenderResourceStatus.in_sync = codes "in-sync"
short_status RenderResourceStatus.drifted = codes "drifted"
short_status RenderResourceStatus.missing_on_cluster = codes "missing"
short_status RenderResourceStatus.extra_on_cluster = codes "extra"
short_status RenderResourceStatus.render_error = codes "render-error"

-- ResourceRail: the indexes of the resources that the filter shows, from the index `i` on.
module _ (lower : Text → Text) where
  abbrev pub rail_shows : Text → RenderResource → Bool
  rail_shows filter r =
      not (truthy filter)
      || includes (lower (r.kind ++ b' ' ∷ (or_else r.ns [] ++ b' ' ∷ r.name))) (lower filter)

  unfoldable pub visible_from : ℕ → Text → List RenderResource → List ℕ
  visible_from i filter [] = []
  visible_from i filter (r ∷ rs) =
      let rest = visible_from (suc i) filter rs in if rail_shows filter r then i ∷ rest else rest

abbrev pub next_position : Option ℕ → Option ℕ
next_position none = none
next_position (some p) = some (suc p)

-- `visible.indexOf(i)`; `none` stands for -1
unfoldable pub position_of : ℕ → List ℕ → Option ℕ
position_of i [] = none
position_of i (j ∷ js) = if j == i then some 0 else next_position (position_of i js)

pub data RailKey : Type 0 where
  arrow_down arrow_up home end other : RailKey

-- where the focus goes; `none` for a key that is not handled
unfoldable pub rail_next : ℕ → ℕ → RailKey → Option ℕ
rail_next len pos arrow_down = some (min (len - 1) (pos + 1))
rail_next len pos arrow_up = some (pos - 1)
rail_next len pos home = some 0
rail_next len pos end = some (len - 1)
rail_next len pos other = none

abbrev pub element_at : List ℕ → Option ℕ → Option ℕ
element_at visible none = none
element_at visible (some n) = get_elem? visible n

abbrev pub rail_selected : List ℕ → RailKey → Option ℕ → Option ℕ
rail_selected visible key none = none
rail_selected visible key (some pos) = element_at visible (rail_next (length visible) pos key)

-- `onKey` of the row of the index `i`: the index that is selected, if one is
unfoldable pub on_rail_key : List ℕ → RailKey → ℕ → Option ℕ
unfolding position_of rail_next
on_rail_key visible key i = rail_selected visible key (position_of i visible)

-- `resources[selectedIdx] ?? resources[0]`
abbrev pub or_first : Option RenderResource → List RenderResource → Option RenderResource
or_first none rs = get_elem? rs 0
or_first (some r) rs = some r

abbrev pub selected_resource : List RenderResource → ℕ → Option RenderResource
selected_resource rs i = or_first (get_elem? rs i) rs
