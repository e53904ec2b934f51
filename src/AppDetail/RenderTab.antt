-- ===== src/AppDetail/RenderTab.antt =====
-- web/src/pages/AppDetail.tsx, DiffTab, RenderDiffTab and their parts: which state of the rendered
-- diff is shown, the rail, and the pane of a resource. `toLowerCase`, the clock of the host and the
-- milliseconds since a date are parameters.
use yafu.Base.{
  ℕ, ltb, ◌==◌, Bool, true, false, ◌&&◌, ◌||◌, not, Option, none, some, or_else, List, [], ◌∷◌,
  ◌++◌, Text, codes, decimal, truthy, length, get_elem?, if◌then◌else◌,
}
use yafu.ApiTypes.{
  RenderResource, RenderResourceStatus, RenderResponse, RenderSource, RenderMethod, ReconcileWould,
}
use yafu.Markup.{
  Piece, says, toned, icon, row, button, input, shown, if_some, if_text, each, Query, empty_state,
}
use yafu.AppDetail.{human_relative}
use yafu.AppDetail.RenderDiff.{
  no_counts, count_by_status, Tone, status_tone, status_label, short_status, visible_from,
  selected_resource,
}
use yafu.AppDetail.DiffBody.{LineNumber, DiffLine, UnifiedLine, split_desired, split_live, unified}

pub data DiffMode : Type 0 where
  drift render : DiffMode

pub data DiffLayout : Type 0 where
  split inline : DiffLayout

pub data RenderAction : Type 0 where
  set_mode : DiffMode → RenderAction
  set_layout : DiffLayout → RenderAction
  select_resource : ℕ → RenderAction
  filter_by : Text → RenderAction

-- The states of DiffTab, RenderDiffTab and ResourceRail. The last starts anew, with the empty filter,
-- also where an error takes the place of the rail, which is not followed here.
pub record RenderTab : Type 0 where
  pub mode : DiffMode
  pub layout : DiffLayout
  pub selected_idx : ℕ
  pub filter : Text

abbrev pub first_render_tab : RenderTab
first_render_tab = record {
  mode = DiffMode.drift;
  layout = DiffLayout.split;
  selected_idx = 0;
  filter = [];
}

abbrev is_render : DiffMode → Bool
is_render DiffMode.drift = false
is_render DiffMode.render = true

-- `setMode(m)`: when the mode changes, RenderDiffTab is unmounted or mounted, and its state and that of
-- the rail start anew
abbrev pub choose_mode : DiffMode → RenderTab → RenderTab
choose_mode m st =
    if (is_render m && is_render st.mode) || (not (is_render m) && not (is_render st.mode))
    then st
    else record first_render_tab { mode = m }

abbrev pub on_render_action : RenderAction → RenderTab → RenderTab
on_render_action (set_mode m) st = choose_mode m st
on_render_action (set_layout l) st = record st { layout = l }
on_render_action (select_resource i) st = record st { selected_idx = i }
on_render_action (filter_by t) st = record st { filter = t }

abbrev mode_button : Text → DiffMode → Bool → Piece RenderAction
mode_button label m pressed = button record {
  label = label;
  title = [];
  pressed = some pressed;
  disabled = false;
  on_click = set_mode m;
}

-- the bar of DiffTab
unfoldable pub mode_bar : DiffMode → List (Piece RenderAction)
mode_bar m =
    mode_button (codes "Drift field-ownership") DiffMode.drift (not (is_render m))
    ∷ mode_button (codes "Git vs cluster rendered diff") DiffMode.render (is_render m)
    ∷ []

abbrev method_text : RenderMethod → Text
method_text RenderMethod.kustomize_build = codes "kustomize build"
method_text RenderMethod.helm_template = codes "helm template"

abbrev would_text : ReconcileWould → Text
would_text ReconcileWould.create = codes "create"
would_text ReconcileWould.update = codes "update"
would_text ReconcileWould.delete = codes "delete"

abbrev tone_text : Tone → Text
tone_text Tone.ok = codes "ok"
tone_text Tone.warn = codes "warn"
tone_text Tone.info = codes "info"
tone_text Tone.err = codes "err"

-- the states that stand in the place of a diff
abbrev pub in_sync_state : List (Piece RenderAction)
in_sync_state =
    icon (codes "check")
    ∷ says (codes "In sync")
    ∷ says (codes "This resource matches the rendered source byte-for-byte.")
    ∷ []

abbrev pub missing_state : List (Piece RenderAction)
missing_state =
    icon (codes "warn")
    ∷ says (codes "Missing on cluster")
    ∷ says (
        codes
          "This resource is in the rendered source but hasn't been applied yet. Triggering a reconcile will create it.")
    ∷ []

abbrev pub extra_state : List (Piece RenderAction)
extra_state =
    icon (codes "warn")
    ∷ says (codes "Extra on cluster")
    ∷ says (
        codes
          "This resource exists on the cluster but is not in the rendered source. With prune: true, Flux would delete it on the next reconcile.")
    ∷ []

abbrev pub render_error_state : RenderResource → List (Piece RenderAction)
render_error_state r =
    icon (codes "warn")
    ∷ says (codes "Source render failed")
    ∷ says (
        codes
          "Flux couldn't render the manifest for this resource. The diff is unavailable until the build error is resolved.")
    ∷ says (or_else r.render_error (codes "(no output)"))
    ∷ []

abbrev pub render_unavailable : Option Text → List (Piece RenderAction)
render_unavailable message =
    icon (codes "warn")
    ∷ says (codes "Couldn't reach the render endpoint")
    ∷ says (
        codes
          "The Git-vs-cluster diff is unavailable. Check that the cluster is reachable and that you have permission to read it.")
    ∷ if_text message (λ m. says m ∷ [])

abbrev pub render_top_level_error : Text → RenderSource → List (Piece RenderAction)
render_top_level_error error source =
    icon (codes "warn")
    ∷ says (codes "Source render failed")
    ∷ says (
        method_text source.method
        ++ (codes " couldn't produce a manifest for "
            ++ (source.namespace
                ++ (codes "/"
                    ++ (source.name
                        ++ codes ". The diff is unavailable until the build error is resolved.")))))
    ∷ says error
    ∷ []

abbrev pub render_loading : List (Piece RenderAction)
render_loading =
    icon (codes "refresh")
    ∷ says (codes "Rendering source…")
    ∷ says (
        codes
          "kustomize build can take 1–10s. We'll show the diff as soon as the manifest is ready.")
    ∷ []

abbrev number_text : LineNumber → Text
number_text LineNumber.dot = codes "·"
number_text LineNumber.blank = []
number_text (LineNumber.number n) = decimal n

abbrev diff_line_pieces : DiffLine → List (Piece RenderAction)
diff_line_pieces l = row false none ∷ says (number_text l.n) ∷ toned l.cls l.text ∷ []

abbrev unified_line_pieces : UnifiedLine → List (Piece RenderAction)
unified_line_pieces l =
    row false none ∷ says (number_text l.n) ∷ says (number_text l.n2) ∷ toned l.cls l.text ∷ []

-- SplitDiff and UnifiedDiff
unfoldable pub split_view : RenderResource → List (Piece RenderAction)
unfolding each split_desired split_live
split_view r =
    says (codes "− Desired · Git")
    ∷ (each (λ h. says (codes "@@ " ++ h.0) ∷ each diff_line_pieces h.1) (split_desired r)
        ++ (says (codes "+ Live · Cluster")
            ∷ each (λ ls. says (codes "·") ∷ each diff_line_pieces ls) (split_live r)))

unfoldable pub unified_view : RenderResource → List (Piece RenderAction)
unfolding each unified
unified_view r = each (λ h. says (codes "@@ " ++ h.0) ∷ each unified_line_pieces h.1) (unified r)

abbrev is_split : DiffLayout → Bool
is_split DiffLayout.split = true
is_split DiffLayout.inline = false

abbrev layout_button : Text → DiffLayout → Bool → Piece RenderAction
layout_button label l pressed = button record {
  label = label;
  title = [];
  pressed = some pressed;
  disabled = false;
  on_click = set_layout l;
}

abbrev diff_of : RenderResource → DiffLayout → List (Piece RenderAction)
diff_of r DiffLayout.split = split_view r
diff_of r DiffLayout.inline = unified_view r

unfoldable pub diff_body : RenderResource → DiffLayout → List (Piece RenderAction)
unfolding split_view unified_view
diff_body r layout =
    layout_button (codes "Split") DiffLayout.split (is_split layout)
    ∷ layout_button (codes "Unified") DiffLayout.inline (not (is_split layout))
    ∷ says (codes "desired (Git)")
    ∷ says (codes "live (Cluster)")
    ∷ diff_of r layout

-- ResourcePane: what is shown of a resource, by its status
abbrev pub pane_body :
    RenderResourceStatus → RenderResource → DiffLayout → List (Piece RenderAction)
pane_body RenderResourceStatus.render_error r layout = render_error_state r
pane_body RenderResourceStatus.in_sync r layout = in_sync_state
pane_body RenderResourceStatus.missing_on_cluster r layout = missing_state
pane_body RenderResourceStatus.extra_on_cluster r layout = extra_state
pane_body RenderResourceStatus.drifted r layout = diff_body r layout

unfoldable pub resource_pane : RenderResource → DiffLayout → List (Piece RenderAction)
unfolding diff_body
resource_pane r layout =
    toned (codes "kind-badge tone-" ++ tone_text (status_tone r.status)) r.kind
    ∷ says r.name
    ∷ says (
        if_text r.group (λ g. g ++ codes "/")
        ++ (or_else r.version (codes "v1")
            ++ (codes " · " ++ (or_else r.ns (codes "—") ++ (codes "/" ++ r.name)))))
    ∷ (if_some r.reconcile_would (λ w.
          toned (codes "hint hint-" ++ tone_text (status_tone r.status))
            (codes "reconcile would: " ++ would_text w)
          ∷ [])
        ++ pane_body r.status r layout)

abbrev count_piece : Text → Text → ℕ → List (Piece RenderAction)
count_piece color word n = shown (ltb 0 n) (says (codes "·") ∷ toned color (decimal n ++ word) ∷ [])

abbrev summary_row : Text → Text → ℕ → List (Piece RenderAction)
summary_row tone label n = toned tone label ∷ says (decimal n) ∷ []

abbrev rail_item : ℕ → ℕ → RenderResource → List (Piece RenderAction)
rail_item selected_idx i r =
    row (i == selected_idx) (some (select_resource i))
    ∷ toned (codes "res-icon " ++ tone_text (status_tone r.status)) (status_label r.status)
    ∷ says r.kind
    ∷ says r.name
    ∷ toned (codes "res-badge " ++ tone_text (status_tone r.status)) (short_status r.status)
    ∷ []

module _ (lower : Text → Text) where
  unfoldable pub rail_items : Text → ℕ → List RenderResource → List (Piece RenderAction)
  unfolding each visible_from
  rail_items filter selected_idx rs =
      each (λ i. if_some (get_elem? rs i) (rail_item selected_idx i))
        (visible_from lower 0 filter rs)

  -- ResourceRail
  unfoldable pub resource_rail : RenderTab → List RenderResource → List (Piece RenderAction)
  unfolding rail_items count_by_status
  resource_rail st rs =
      let counts = count_by_status no_counts rs in
      says (codes "Resources")
      ∷ says (decimal (length rs))
      ∷ (count_piece (codes "var(--warn)") (codes " drifted") counts.drifted
          ++ (count_piece (codes "var(--info)") (codes " missing") counts.missing_on_cluster
              ++ (count_piece (codes "var(--err)") (codes " extra") counts.extra_on_cluster
                  ++ (count_piece (codes "var(--err)") (codes " errored") counts.render_error
                      ++ (input (codes "Filter resources") st.filter filter_by
                          ∷ (rail_items st.filter st.selected_idx rs
                              ++ (summary_row (codes "ok") (codes "in-sync") counts.in_sync
                                  ++ (summary_row (codes "warn") (codes "drifted") counts.drifted
                                      ++ (summary_row (codes "info") (codes "missing")
                                            counts.missing_on_cluster
                                          ++ summary_row (codes "err") (codes "extra")
                                              counts.extra_on_cluster)))))))))

  abbrev pane_or_empty : Option RenderResource → DiffLayout → List (Piece RenderAction)
  pane_or_empty none layout =
      empty_state (codes "No resources rendered")
        (some (codes "Source produced an empty manifest."))
  pane_or_empty (some r) layout = resource_pane r layout

  module _ (locale_time : Text → Text) (since : Text → ℕ) where
    unfoldable pub rendered_diff : RenderTab → RenderResponse → List (Piece RenderAction)
    unfolding resource_rail resource_pane human_relative
    rendered_diff st d =
        says (d.source.namespace ++ (codes "/" ++ d.source.name))
        ∷ says (codes "·")
        ∷ (if_text d.source.ref (λ t. says t ∷ says (codes "·") ∷ [])
            ++ (says d.source.revision
                ∷ says (codes "·")
                ∷ says (method_text d.source.method)
                ∷ says (
                    codes "rendered "
                    ++ (human_relative (since d.rendered_at)
                        ++ (codes " · as of " ++ locale_time d.rendered_at)))
                ∷ (resource_rail st d.resources
                    ++ pane_or_empty (selected_resource d.resources st.selected_idx) st.layout)))

    abbrev answered : RenderTab → Option Text → RenderResponse → List (Piece RenderAction)
    answered st (some e) d =
        if truthy e then render_top_level_error e d.source else rendered_diff st d
    answered st none d = rendered_diff st d

    abbrev not_loading : RenderTab → Option Text → Option RenderResponse → List (Piece RenderAction)
    not_loading st (some m) d = render_unavailable (some m)
    not_loading st none none = render_unavailable none
    not_loading st none (some d) = answered st d.error d

    -- RenderDiffTab: what is shown, by the state of the query
    unfoldable pub render_diff_tab : RenderTab → Query RenderResponse → List (Piece RenderAction)
    unfolding rendered_diff
    render_diff_tab st q = if q.is_loading then render_loading else not_loading st q.error q.result
