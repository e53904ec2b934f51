-- ===== src/Pages/Fleet.antt =====
-- web/src/pages/Fleet.tsx: the statistics of the fleet and its three layouts. `percent`, the ratio of
-- two numbers in per cent with one decimal, is a parameter.
use yafu.Base.{
  ℕ, ltb, ◌==◌, Bool, false, Option, none, some, or_else, List, [], ◌∷◌, ◌++◌, Text, codes, decimal,
  ◌=t◌, keep, length, if◌then◌else◌,
}
use yafu.ApiTypes.{Cluster, ClusterStatus, ClustersResponse, ImageUpdate, ImageUpdatesResponse}
use yafu.Chrome.Views.{cluster_card, sparkline}
use yafu.Markup.{
  is_empty, Piece, says, toned, dot, row, button, shown, if_text, or_dash, each, Query, listing,
  stat,
}
use yafu.Shell.{FleetLayout}
use yafu.Pages.{FleetTotals, fleet_totals}
use yafu.Pages.Images.{updates_of, ready_count, failing_count}
use yafu.Pages.Settings.{clusters_of}

pub data FleetAction : Type 0 where
  set_layout : FleetLayout → FleetAction
  refetch : FleetAction
  pick_cluster : Text → FleetAction

abbrev layout_text : FleetLayout → Text
layout_text FleetLayout.cards = codes "cards"
layout_text FleetLayout.matrix = codes "matrix"
layout_text FleetLayout.map = codes "map"

abbrev layout_button : FleetLayout → FleetLayout → Text → Piece FleetAction
layout_button chosen l label = button record {
  label = label;
  title = [];
  pressed = some (layout_text chosen =t layout_text l);
  disabled = false;
  on_click = set_layout l;
}

unfoldable pub fleet_head :
    FleetLayout → Bool → List Cluster → FleetTotals → List (Piece FleetAction)
fleet_head layout is_fetching clusters totals =
    says (codes "Fleet")
    ∷ says (
        decimal (length clusters)
        ++ (codes " cluster"
            ++ ((if length clusters == 1 then [] else codes "s")
                ++ (codes " · " ++ (decimal totals.apps ++ codes " apps · live")))))
    ∷ says (codes "Reconciliation health across every Flux-managed cluster.")
    ∷ layout_button layout FleetLayout.cards (codes "Cards")
    ∷ layout_button layout FleetLayout.matrix (codes "Matrix")
    ∷ layout_button layout FleetLayout.map (codes "Compact")
    ∷ button record {
      label = if is_fetching then codes "Refreshing…" else codes "Refresh";
      title = codes "Refetch cluster status now";
      pressed = none;
      disabled = is_fetching;
      on_click = refetch;
    }
    ∷ []

abbrev image_delta : List ImageUpdate → List (Piece FleetAction)
image_delta [] = says (codes "no ImagePolicies") ∷ []
image_delta (u ∷ us) =
    if ltb 0 (failing_count (u ∷ us))
    then toned (codes "var(--err)") (decimal (failing_count (u ∷ us)) ++ codes " failing") ∷ []
    else says (codes "resolved") ∷ []

abbrev or_undefined : ℕ → Option Text
or_undefined n = if n == 0 then none else some (decimal n)

abbrev err_if : ℕ → Text
err_if n = if ltb 0 n then codes "err" else []

module _ (percent : ℕ → ℕ → Text) where
  abbrev ready_pct : FleetTotals → Text
  ready_pct t = if ltb 0 t.apps then percent t.ready t.apps else codes "—"

  unfoldable pub fleet_stats :
      List Cluster → FleetTotals → List ImageUpdate → List (Piece FleetAction)
  unfolding stat
  fleet_stats clusters t updates =
      stat (codes "Apps reconciling") (decimal t.ready) (some (decimal t.apps))
        (says (codes "● " ++ (ready_pct t ++ codes "% ready")) ∷ []) (codes "ok")
      ++ (stat (codes "Failing") (decimal t.failing) none
            (says (decimal (length (keep (λ c. ltb 0 c.failing) clusters)) ++ codes " clusters")
              ∷ [])
            (err_if t.failing)
          ++ (stat (codes "Suspended") (decimal t.suspended) none [] (codes "warn")
              ++ stat (codes "Image updates") (decimal (ready_count updates))
                  (or_undefined (length updates)) (image_delta updates)
                  (err_if (failing_count updates))))

abbrev is_active : Option Text → Cluster → Bool
is_active none c = false
is_active (some id) c = c.id =t id

-- the colour of a cluster in the matrix and in the list of pills
abbrev pub cluster_color : ClusterStatus → Text
cluster_color ClusterStatus.failing = codes "var(--err)"
cluster_color ClusterStatus.unreachable = codes "var(--err)"
cluster_color ClusterStatus.degraded = codes "var(--warn)"
cluster_color ClusterStatus.healthy = codes "var(--ok)"

abbrev toned_count : Text → ℕ → Piece FleetAction
toned_count color n = toned (if ltb 0 n then color else codes "var(--ink-3)") (decimal n)

abbrev spark_status : Cluster → Text
spark_status c =
    if ltb 0 c.failing
    then elim c.status [ ClusterStatus.failing ↦ codes "err" | _ ↦ codes "warn" ]
    else codes "ok"

unfoldable pub matrix_row : Option Text → Cluster → List (Piece FleetAction)
matrix_row active_id c =
    row (is_active active_id c) (some (pick_cluster c.id))
    ∷ dot (cluster_color c.status)
    ∷ says c.name
    ∷ (if_text c.region (λ t. says t ∷ [])
        ++ (says (or_dash c.env)
            ∷ says (decimal c.apps)
            ∷ toned_count (codes "var(--ok)") c.ready
            ∷ toned_count (codes "var(--err)") c.failing
            ∷ toned_count (codes "var(--paused)") c.suspended
            ∷ says (decimal c.sources)
            ∷ toned (codes "chip " ++ (if c.flux_installed then codes "ok" else codes "warn"))
                (if c.flux_installed then codes "ok" else codes "missing")
            ∷ sparkline (spark_status c) (or_else c.spark [])))

unfoldable pub pill : Option Text → Cluster → List (Piece FleetAction)
pill active_id c =
    row (is_active active_id c) (some (pick_cluster c.id))
    ∷ dot (cluster_color c.status)
    ∷ says c.name
    ∷ shown (ltb 0 c.failing) (toned (codes "var(--err)") (decimal c.failing ++ codes "!") ∷ [])

abbrev card : Option Text → Cluster → List (Piece FleetAction)
card active_id c = cluster_card (pick_cluster c.id) (is_active active_id c) c

-- the layout that is chosen
unfoldable pub fleet_layout : FleetLayout → Option Text → List Cluster → List (Piece FleetAction)
unfolding each cluster_card matrix_row pill
fleet_layout FleetLayout.cards active_id cs = each (card active_id) cs
fleet_layout FleetLayout.matrix active_id cs =
    says (codes "Cluster status matrix") ∷ each (matrix_row active_id) cs
fleet_layout FleetLayout.map active_id cs =
    says (codes "Compact pill list") ∷ each (pill active_id) cs

unfoldable pub fleet_page :
    (ℕ → ℕ → Text)
    → FleetLayout
    → Option Text
    → Bool
    → Query ClustersResponse
    → Option ImageUpdatesResponse
    → List (Piece FleetAction)
unfolding fleet_head fleet_totals fleet_stats fleet_layout
fleet_page percent layout cluster_id is_fetching q images =
    let clusters = clusters_of q.result in
    let totals = fleet_totals clusters in
    fleet_head layout is_fetching clusters totals
    ++ (fleet_stats percent clusters totals (updates_of images)
        ++ listing (codes "Loading clusters…") (codes "No clusters registered")
            (some (
              codes
                "In CRD mode, create a Cluster CR pointing at a kubeconfig Secret. In file mode, set --config-file or --kubeconfig."))
            q.is_loading q.error (is_empty clusters) (fleet_layout layout cluster_id clusters))
