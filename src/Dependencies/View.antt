-- ===== src/Dependencies/View.antt =====
-- web/src/pages/Dependencies.tsx: the view of the page, its handlers, and the block of a cluster.
-- `trim` and `toLowerCase` are parameters. What the layout measures is known by the points that it has.
use yafu.Base.{
  ltb, Bool, true, false, ◌&&◌, ◌||◌, not, Option, none, some, is_some, List, [], ◌∷◌, ◌++◌, map,
  Text, codes, decimal, ◌=t◌, keep, length, if◌then◌else◌,
}
use yafu.Base.Sort.{Comparator}
use yafu.ApiTypes.{
  Application, ApplicationsResponse, Source, SourceKind, SourcesResponse, Status, app_kind_text,
  source_kind_text, status_text,
}
use yafu.Apps.View.{apps_of, apps_errors}
use yafu.Chrome.{status_chip, kind_badge}
use yafu.DepGraph.{ClusterDepGraph, DepEdge, EdgeTone}
use yafu.DepGraph.Build.{build_cluster_graphs}
use yafu.Dependencies.{
  StatusFilter, Totals, totals, visible_graphs, Card, CardKind, dimmed, edge_style, EdgeStyle,
}
use yafu.Markup.{
  is_empty, Piece, says, toned, dot, icon, row, button, input, shown, if_some, or_text, each, Query,
  loading_state, error_state, empty_state, partial_fan_out,
}
use yafu.Pages.Images.{counted}
use yafu.Pages.Sources.{sources_of, source_errors}

pub data DepsAction : Type 0 where
  set_search : Text → DepsAction
  set_status : StatusFilter → DepsAction
  set_cluster : Text → DepsAction
  open_app : Application → DepsAction
  set_hover : Option Card → DepsAction

pub record DepsState : Type 0 where
  pub status_filter : StatusFilter
  pub search : Text
  pub cluster_filter : Text

abbrev pub first_deps : DepsState
first_deps = record { status_filter = StatusFilter.all; search = []; cluster_filter = codes "all" }

abbrev pub on_deps_action : DepsAction → DepsState → DepsState
on_deps_action (set_search t) st = record st { search = t }
on_deps_action (set_status s) st = record st { status_filter = s }
on_deps_action (set_cluster c) st = record st { cluster_filter = c }
on_deps_action _ st = st

-- `onHover` of a card: the mouse and the focus enter or leave it
abbrev pub on_hover : Card → Bool → DepsAction
on_hover c active = set_hover (if active then some c else none)

-- a key on the card of an application
abbrev pub on_card_key : Text → Application → Option DepsAction
on_card_key key a = if key =t codes "Enter" || key =t codes " " then some (open_app a) else none

abbrev pub status_color : Status → Bool → Text
status_color s true = codes "var(--paused)"
status_color Status.failing false = codes "var(--err)"
status_color Status.degraded false = codes "var(--warn)"
status_color Status.progressing false = codes "var(--info)"
status_color Status.paused false = codes "var(--paused)"
status_color Status.healthy false = codes "var(--ok)"

abbrev filter_text : StatusFilter → Text
filter_text StatusFilter.all = codes "all"
filter_text StatusFilter.failing = codes "failing"
filter_text StatusFilter.degraded = codes "degraded"

abbrev radio : Text → Bool → DepsAction → Piece DepsAction
radio label checked action = button record {
  label = label;
  title = [];
  pressed = some checked;
  disabled = false;
  on_click = action;
}

abbrev status_radio : StatusFilter → StatusFilter → Text → Piece DepsAction
status_radio chosen s label = radio label (filter_text chosen =t filter_text s) (set_status s)

-- the search and the two groups of buttons
unfoldable pub deps_filters : DepsState → List (Text × Text) → List (Piece DepsAction)
deps_filters st clusters =
    icon (codes "search")
    ∷ input (codes "Filter dependencies") st.search set_search
    ∷ status_radio st.status_filter StatusFilter.all (codes "All")
    ∷ status_radio st.status_filter StatusFilter.failing (codes "Failing only")
    ∷ status_radio st.status_filter StatusFilter.degraded (codes "Degraded+")
    ∷ shown (ltb 1 (length clusters)) (
        radio (codes "All clusters") (st.cluster_filter =t codes "all") (set_cluster (codes "all"))
        ∷ map (λ c. radio c.1 (st.cluster_filter =t c.0) (set_cluster c.0)) clusters)

abbrev pub deps_meta : Totals → Text
deps_meta t =
    decimal t.edges
    ++ (codes " edges"
        ++ (counted t.failing_edges (codes "failing")
            ++ (counted t.orphans (codes "orphan") ++ counted t.unused (codes "unused"))))

abbrev faded : Bool → Text
faded d = if d then codes "0.35" else codes "1"

unfoldable pub source_card : Bool → Source → List (Piece DepsAction)
unfolding status_chip kind_badge
source_card is_dimmed s =
    row false none
    ∷ toned (faded is_dimmed) (status_color s.status s.suspended)
    ∷ icon (elim s.kind [ SourceKind.git_repository ↦ codes "git" | _ ↦ codes "source" ])
    ∷ says s.name
    ∷ toned (kind_badge (source_kind_text s.kind)).color (source_kind_text s.kind)
    ∷ says s.ns
    ∷ toned (status_chip (status_text s.status) none).cls
        (status_chip (status_text s.status) none).text
    ∷ []

unfoldable pub app_card : Bool → Application → List (Piece DepsAction)
unfolding status_chip kind_badge
app_card is_dimmed a =
    row false (some (open_app a))
    ∷ toned (faded is_dimmed) (status_color a.status a.suspended)
    ∷ toned (status_chip (status_text a.status) none).cls
        (status_chip (status_text a.status) none).text
    ∷ says a.name
    ∷ says a.ns
    ∷ toned (kind_badge (app_kind_text a.kind)).color (app_kind_text a.kind)
    ∷ icon (codes "app")
    ∷ []

abbrev orphan_row : Application → List (Piece DepsAction)
orphan_row a =
    row false (some (open_app a))
    ∷ dot (status_color a.status a.suspended)
    ∷ says a.name
    ∷ says a.ns
    ∷ says (or_text a.source (codes "no source ref"))
    ∷ []

abbrev pub orphan_list : List Application → List (Piece DepsAction)
orphan_list [] = []
orphan_list (a ∷ as') =
    says (codes "Orphan apps (" ++ (decimal (length (a ∷ as')) ++ codes ")"))
    ∷ says (codes "sourceRef points to a Source that isn't in the app's namespace.")
    ∷ each orphan_row (a ∷ as')

abbrev unused_row : Source → List (Piece DepsAction)
unused_row s =
    row false none
    ∷ dot (status_color s.status s.suspended)
    ∷ says s.name
    ∷ says s.ns
    ∷ toned (kind_badge (source_kind_text s.kind)).color (source_kind_text s.kind)
    ∷ []

abbrev pub unused_list : List Source → List (Piece DepsAction)
unused_list [] = []
unused_list (s ∷ ss) =
    says (codes "Unused sources (" ++ (decimal (length (s ∷ ss)) ++ codes ")"))
    ∷ says (codes "no application references these.")
    ∷ each unused_row (s ∷ ss)

-- an edge that is drawn: its style, and whether its line is dashed
pub record DrawnEdge : Type 0 where
  pub edge : DepEdge
  pub style : EdgeStyle
  pub is_dashed : Bool

abbrev is_muted : EdgeTone → Bool
is_muted EdgeTone.muted = true
is_muted _ = false

-- the edges whose two cards the layout has measured
unfoldable pub drawn_edges : (Text → Bool) → Option Card → List DepEdge → List DrawnEdge
unfolding edge_style
drawn_edges has_point hover es =
    map (λ e. record { edge = e; style = edge_style hover e; is_dashed = is_muted e.tone })
      (keep (λ e. has_point (codes "src:" ++ e.source_id) && has_point (codes "app:" ++ e.app_id))
        es)

abbrev block_meta : ClusterDepGraph → Text
block_meta g =
    decimal (length g.sources)
    ++ (codes " src · "
        ++ (decimal (length g.apps)
            ++ (codes " app · "
                ++ (decimal (length g.edges)
                    ++ (codes " edge"
                        ++ (counted (length g.orphan_apps) (codes "orphan")
                            ++ counted (length g.unused_sources) (codes "unused")))))))

-- ClusterGraphBlock, but for the edges
unfoldable pub cluster_block : Option Card → ClusterDepGraph → List (Piece DepsAction)
unfolding each source_card app_card dimmed kind_badge
cluster_block hover g =
    says g.cluster_name
    ∷ says (block_meta g)
    ∷ says (codes "Sources")
    ∷ says (codes "Applications")
    ∷ (each (λ s. source_card (dimmed g.edges hover CardKind.source s.id) s) g.sources
        ++ (each (λ a. app_card (dimmed g.edges hover CardKind.app a.id) a) g.apps
            ++ (orphan_list g.orphan_apps ++ unused_list g.unused_sources)))

-- the states of the page, and the blocks of the graphs that the filters leave
unfoldable pub deps_body :
    Bool
    → Option Text
    → List ClusterDepGraph
    → List ClusterDepGraph
    → (ClusterDepGraph → Option Card)
    → List (Piece DepsAction)
unfolding loading_state error_state empty_state each cluster_block
deps_body is_loading error all_graphs graphs hover =
    let settled = not is_loading && not (is_some error) in
    shown (is_loading && is_empty all_graphs) (loading_state (codes "Loading dependency graph…"))
    ++ (if_some error error_state
        ++ (shown (settled && is_empty all_graphs) (
              empty_state (codes "No dependencies") (
                some (
                  codes
                    "Need at least one Kustomization or HelmRelease with a resolvable sourceRef.")))
            ++ (shown (settled && (not (is_empty all_graphs) && is_empty graphs)) (
                  empty_state (codes "No matches")
                    (some (codes "Adjust the filters to see edges, orphans, or unused sources.")))
                ++ each (λ g. cluster_block (hover g) g) graphs)))

abbrev or_other : Option Text → Option Text → Option Text
or_other none e = e
or_other (some e) _ = some e

-- DependenciesPage, over the two queries: the graphs are those of what both have fetched
unfoldable pub deps_page :
    Comparator Text
    → (Text → Text)
    → (Text → Text)
    → DepsState
    → Query ApplicationsResponse
    → Query SourcesResponse
    → (ClusterDepGraph → Option Card)
    → List (Piece DepsAction)
unfolding build_cluster_graphs visible_graphs totals deps_filters deps_body
deps_page lc trim lower st apps_q sources_q hover =
    let all_graphs =
      build_cluster_graphs lc (apps_of apps_q.result) (sources_of sources_q.result) in
    let graphs =
      visible_graphs trim lower all_graphs st.cluster_filter st.status_filter st.search in
    says (codes "Dependencies")
    ∷ says (deps_meta (totals all_graphs))
    ∷ says (
        codes
          "Source → application graph. Joins on (cluster, namespace, kind, name). Apps whose sourceRef points outside their own namespace surface as orphans (the API doesn't carry sourceRef.namespace yet).")
    ∷ (deps_filters st (map (λ g. (g.cluster_id, g.cluster_name)) all_graphs)
        ++ (partial_fan_out (apps_errors apps_q.result ++ source_errors sources_q.result)
            ++ deps_body (apps_q.is_loading || sources_q.is_loading)
                (or_other apps_q.error sources_q.error) all_graphs graphs hover))
