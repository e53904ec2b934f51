-- ===== src/Pages/Sources.antt =====
-- web/src/pages/Sources.tsx: the sources, their statistics and their rows. `toLowerCase` is a
-- parameter.
use yafu.Base.{
  ltb, Bool, true, false, ◌||◌, not, Option, none, some, or_else, List, [], ◌∷◌, ◌++◌, map, Text,
  codes, decimal, ◌=t◌, has, join, take, keep, length, if◌then◌else◌,
}
use yafu.ApiTypes.{ClusterError, Source, SourceKind, SourcesResponse, Status, source_kind_text}
use yafu.Chrome.{kind_badge}
use yafu.DepGraph.{is_failing}
use yafu.Markup.{
  is_empty, Piece, says, toned, dot, icon, row, button, shown, if_text, or_dash, each, Query,
  listing, action_failed, partial_fan_out,
}
use yafu.Pages.{by_kind}
use yafu.Pages.Rows.{RowAction, Calls, last_error, row_buttons}
use yafu.Pages.Images.{counted, suspended_mark}

abbrev pub sources_of : Option SourcesResponse → List Source
sources_of none = []
sources_of (some d) = d.sources

abbrev pub source_errors : Option SourcesResponse → List ClusterError
source_errors none = []
source_errors (some d) = or_else d.errors []

-- the button of the page, besides those of the rows
pub data SourcesAction : Type 0 where
  on_row : RowAction Source → SourcesAction
  reconcile_every : SourcesAction

abbrev pub reconcile_each :
    (Calls Source → Source → Calls Source) → Calls Source → List Source → Calls Source
reconcile_each act calls [] = calls
reconcile_each act calls (s ∷ ss) = reconcile_each act (act calls s) ss

abbrev pub is_healthy : Status → Bool
is_healthy Status.healthy = true
is_healthy _ = false

-- the text of the kind is one of the cases of the switch, or is put in lower case
unfoldable pub kind_short : (Text → Text) → Text → Text
kind_short lower k =
    if k =t codes "GitRepository"
    then codes "git"
    else if k =t codes "HelmRepository"
    then codes "helm"
    else if k =t codes "OCIRepository"
    then codes "oci"
    else if k =t codes "Bucket"
    then codes "bucket"
    else lower k

-- the texts without repetitions: `new Set(xs)`
unfoldable pub distinct : List Text → List Text → List Text
distinct seen [] = []
distinct seen (t ∷ ts) =
    let fresh = distinct (t ∷ seen) ts in
    let known = distinct seen ts in if has t seen then known else t ∷ fresh

abbrev pub source_dot : Status → Text
source_dot Status.failing = codes "var(--err)"
source_dot Status.degraded = codes "var(--warn)"
source_dot Status.progressing = codes "var(--info)"
source_dot Status.paused = codes "var(--paused)"
source_dot Status.healthy = codes "var(--ok)"

abbrev source_icon : SourceKind → Text
source_icon SourceKind.git_repository = codes "git"
source_icon SourceKind.helm_repository = codes "helm"
source_icon _ = codes "oci"

abbrev pub act_row : Piece (RowAction Source) → Piece SourcesAction
act_row (Piece.says t) = says t
act_row (Piece.toned c t) = toned c t
act_row (Piece.dot c) = dot c
act_row (Piece.icon i) = icon i
act_row (Piece.button b) = button record {
  label = b.label;
  title = b.title;
  pressed = b.pressed;
  disabled = b.disabled;
  on_click = on_row b.on_click;
}
act_row (Piece.link h l) = Piece.link h l
act_row (Piece.input l v f) = Piece.input l v (λ t. on_row (f t))
act_row (Piece.select v os f) = Piece.select v os (λ t. on_row (f t))
act_row (Piece.checkbox l v d f) = Piece.checkbox l v d (λ b. on_row (f b))
act_row (Piece.row s none) = row s none
act_row (Piece.row s (some a)) = row s (some (on_row a))

unfoldable pub source_row : Calls Source → Source → List (Piece (RowAction Source))
unfolding row_buttons kind_badge
source_row calls s =
    row false none
    ∷ dot (source_dot s.status)
    ∷ icon (source_icon s.kind)
    ∷ says s.name
    ∷ (suspended_mark s.suspended
        ++ (shown (is_failing s.status) (if_text s.message (λ m. says m ∷ []))
            ++ (toned (kind_badge (source_kind_text s.kind)).color (source_kind_text s.kind)
                ∷ says s.cluster
                ∷ says s.url
                ∷ says (or_dash s.ref)
                ∷ says (or_dash s.revision)
                ∷ says (or_dash s.interval)
                ∷ says s.age
                ∷ row_buttons (λ x. x.id) s.name s.suspended calls s)))

module _ (lower : Text → Text) where
  -- the three statistics
  unfoldable pub source_stats : List Source → List (Piece SourcesAction)
  unfolding each kind_short by_kind join distinct
  source_stats ss =
      let failing = keep (λ s. is_failing s.status) ss in
      says (codes "Healthy")
      ∷ says (decimal (length (keep (λ s. is_healthy s.status) ss)))
      ∷ says (codes "/ " ++ decimal (length ss))
      ∷ (each (λ kn. says (kind_short lower kn.0 ++ (codes ": " ++ decimal kn.1)) ∷ [])
            (by_kind [] ss)
          ++ (says (codes "Failing fetches")
              ∷ says (decimal (length failing))
              ∷ (shown (ltb 0 (length failing))
                    (says (join (codes " · ") (map (λ s. s.name) (take 3 failing))) ∷ [])
                  ++ (says (codes "Clusters")
                      ∷ says (decimal (length (distinct [] (map (λ s. s.cluster_id) ss))))
                      ∷ []))))

  unfoldable pub sources_page : Query SourcesResponse → Calls Source → List (Piece SourcesAction)
  unfolding source_stats source_row
  sources_page q calls =
      let sources = sources_of q.result in
      says (codes "Sources")
      ∷ says (
          decimal (length sources)
          ++ (codes " total"
              ++ counted (length (keep (λ s. is_failing s.status) sources)) (codes "failing")))
      ∷ says (
          codes
            "Git repositories, Helm repositories, OCI registries, and Buckets that Flux pulls from.")
      ∷ button record {
        label =
            if calls.reconciling.is_pending then codes "Reconciling…" else codes "Reconcile all";
        title = codes "Trigger reconcile on every source";
        pressed = none;
        disabled = is_empty sources || calls.reconciling.is_pending;
        on_click = reconcile_every;
      }
      ∷ (action_failed (last_error calls)
          ++ (shown (not (is_empty sources)) (source_stats sources)
              ++ (partial_fan_out (source_errors q.result)
                  ++ listing (codes "Loading sources…") (codes "No sources")
                      (some (
                        codes
                          "Flux has no GitRepository / HelmRepository / OCIRepository / Bucket on the registered clusters."))
                      q.is_loading q.error (is_empty sources)
                      (map act_row (each (source_row calls) sources)))))
