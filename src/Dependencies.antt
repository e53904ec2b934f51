-- ===== src/Dependencies.antt =====
-- web/src/pages/Dependencies.tsx: the filters of the page, its totals, and what hovering does to
-- the cards and the edges. `trim` and `toLowerCase` are parameters, since they depend on Unicode.
pub mod Filter
pub mod Hover
pub mod View
mod Tests
use yafu.Base.{
  ℕ, ◌+◌, ltb, Bool, true, false, ◌&&◌, ◌||◌, not, Option, none, some, List, [], ◌∷◌, ◌++◌, map,
  Text, codes, ◌=t◌, has, truthy, includes, any, keep, length, if◌then◌else◌,
}
use yafu.Base.Entries.{Entries, get, put}
use yafu.ApiTypes.{Application, Source, Status}
use yafu.DepGraph.{ClusterDepGraph, DepEdge, EdgeTone, is_failing, is_degraded}

pub data StatusFilter : Type 0 where
  all failing degraded : StatusFilter

abbrev pub want_status : StatusFilter → Status → Bool → Bool
want_status all s suspended = true
want_status failing s suspended = not suspended && is_failing s
want_status degraded s suspended = not suspended && (is_failing s || is_degraded s)

-- `new Map(xs.map((x) => [x.id, x]))`
unfoldable pub index_sources : List Source → Entries Source → Entries Source
index_sources [] m = m
index_sources (s ∷ ss) m = index_sources ss (put s.id s m)

unfoldable pub index_apps : List Application → Entries Application → Entries Application
index_apps [] m = m
index_apps (a ∷ as') m = index_apps as' (put a.id a m)

module _ (trim lower : Text → Text) where
  -- `q` is the search, trimmed and in lower case
  abbrev pub want_search : Text → List Text → Bool
  want_search q fields = not (truthy q) || any (λ f. includes (lower f) q) fields

  abbrev pub want_edge : StatusFilter → Text → Option Source → Option Application → Bool
  want_edge f q (some s) (some a) =
      want_status f s.status s.suspended
      && (want_status f a.status a.suspended && want_search q (s.name ∷ s.ns ∷ a.name ∷ a.ns ∷ []))
  want_edge f q _ _ = false

  -- whether an edge of the graph survives the filters
  unfoldable pub survives : ClusterDepGraph → StatusFilter → Text → DepEdge → Bool
  survives g f q e =
      want_edge f q (get e.source_id (index_sources g.sources []))
        (get e.app_id (index_apps g.apps []))

  unfoldable pub filter_graph : ClusterDepGraph → StatusFilter → Text → ClusterDepGraph
  filter_graph g f search =
      let q = lower (trim search) in
      let surviving_edges = keep (survives g f q) g.edges in
      record g {
        sources = keep (λ s. has s.id (map (λ e. e.source_id) surviving_edges)) g.sources;
        apps = keep (λ a. has a.id (map (λ e. e.app_id) surviving_edges)) g.apps;
        edges = surviving_edges;
        orphan_apps =
            keep
              (λ a.
                want_status f a.status a.suspended && want_search q (a.name ∷ a.ns ∷ a.source ∷ []))
              g.orphan_apps;
        unused_sources =
            keep (λ s. want_status f s.status s.suspended && want_search q (s.name ∷ s.ns ∷ []))
              g.unused_sources;
      }

  -- The graphs that are drawn.
  unfoldable pub visible_graphs :
      List ClusterDepGraph → Text → StatusFilter → Text → List ClusterDepGraph
  unfolding filter_graph
  visible_graphs all_graphs cluster_filter f search =
      keep (λ g. ltb 0 (length g.edges + length g.orphan_apps + length g.unused_sources))
        (map (λ g. filter_graph g f search)
          (keep (λ g. cluster_filter =t codes "all" || g.cluster_id =t cluster_filter) all_graphs))

pub record Totals : Type 0 where
  pub edges : ℕ
  pub failing_edges : ℕ
  pub orphans : ℕ
  pub unused : ℕ

abbrev pub is_err : EdgeTone → Bool
is_err EdgeTone.err = true
is_err _ = false

-- `graphs.reduce((n, g) => n + f(g), 0)`
abbrev pub total : (ClusterDepGraph → ℕ) → ℕ → List ClusterDepGraph → ℕ
total f n [] = n
total f n (g ∷ gs) = total f (n + f g) gs

unfoldable pub totals : List ClusterDepGraph → Totals
totals gs = record {
  edges = total (λ g. length g.edges) 0 gs;
  failing_edges = total (λ g. length (keep (λ e. is_err e.tone) g.edges)) 0 gs;
  orphans = total (λ g. length g.orphan_apps) 0 gs;
  unused = total (λ g. length g.unused_sources) 0 gs;
}

pub data CardKind : Type 0 where
  source app : CardKind

pub record Card : Type 0 where
  pub kind : CardKind
  pub id : Text

abbrev pub same_kind : CardKind → CardKind → Bool
same_kind source source = true
same_kind app app = true
same_kind _ _ = false

-- The end of an edge on the side of a kind.
abbrev pub end_of : CardKind → DepEdge → Text
end_of source e = e.source_id
end_of app e = e.app_id

unfoldable pub dimmed : List DepEdge → Option Card → CardKind → Text → Bool
dimmed edges none kind id = false
dimmed edges (some hover) kind id =
    if same_kind hover.kind kind && hover.id =t id
    then false
    else not (any (λ e. end_of hover.kind e =t hover.id && end_of kind e =t id) edges)

pub data Stroke : Type 0 where
  line_strong warn err ink_4 : Stroke

abbrev pub color_for : EdgeTone → Stroke
color_for EdgeTone.ok = line_strong
color_for EdgeTone.warn = warn
color_for EdgeTone.err = err
color_for EdgeTone.muted = ink_4

-- The opacity in hundredths and the width in tenths.
pub record EdgeStyle : Type 0 where
  pub stroke : Stroke
  pub opacity : ℕ
  pub width : ℕ

abbrev pub is_adjacent : Option Card → DepEdge → Bool
is_adjacent none e = true
is_adjacent (some hover) e = end_of hover.kind e =t hover.id

abbrev pub is_ok : EdgeTone → Bool
is_ok EdgeTone.ok = true
is_ok _ = false

abbrev rest_opacity : Option Card → DepEdge → ℕ
rest_opacity none e = if is_ok e.tone then 50 else 85
rest_opacity (some hover) e = if is_adjacent (some hover) e then 100 else 12

abbrev rest_width : Option Card → DepEdge → ℕ
rest_width none e = if is_err e.tone then 14 else 10
rest_width (some hover) e =
    if is_adjacent (some hover) e then 18 else if is_err e.tone then 14 else 10

unfoldable pub edge_style : Option Card → DepEdge → EdgeStyle
edge_style hover e = record {
  stroke = color_for e.tone;
  opacity = rest_opacity hover e;
  width = rest_width hover e;
}
