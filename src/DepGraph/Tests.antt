-- ===== src/DepGraph/Tests.antt =====
-- web/src/lib/depGraph.ts: the cases of its tests as values, and the theorems at concrete inputs.
use mathlib.Core.List.{Perm}
use mathlib.Core.List.Perm
use yafu.Base.{
  any, ◌↔◌, ◌≡◌, refl, ◌⊎◌, inl, true, false, some, List, [], ◌∷◌, ◌++◌, Text, codes, ◌=t◌,
  index_of, add, In, keep, map, arith,
}
use yafu.Base.Entries.{get, put}
use yafu.Base.Host.{code_unit_compare}
use yafu.Base.Sort.{sort}
use yafu.ApiTypes.{Application, Source}
use yafu.DepGraph.Order.{drawing, graphs-reordered}
use yafu.DepGraph.Made.{ListsApp, ListsSource}
use yafu.DepGraph.Graphs.{graphs-one_cluster, graphs_complete}
use yafu.DepGraph.Columns.{apps-perm, no_ref}
use yafu.DepGraph.Edges.{In-sources_iff, edges-Joins, Joins}
use yafu.DepGraph.Clusters.{get-group}
use yafu.DepGraph.{ClusterDepGraph, parse_source_ref, edge_tone, severity_name_sort}
use yafu.DepGraph.Index.{resolve, index_from}
use yafu.DepGraph.Link.{edge, link_all}
use yafu.DepGraph.Build.{build_cluster_graphs, cluster_graph, group}
use yafu.DepGraph.Fixtures.{app, src, two_apps, two_sources, a1, stray, unnamed, main, bucket}

abbrev graphs_shape : List Application → List Source → List (Text × List Text × List Text)
graphs_shape apps sources =
    map (λ g. (g.cluster_id, map (λ a. a.id) g.apps, map (λ a. a.id) g.orphan_apps))
      (build_cluster_graphs code_unit_compare apps sources)

two_graphs :
    graphs_shape two_apps two_sources
    ≡ (codes "c1", codes "a1" ∷ [], []) ∷ (codes "c2", [], codes "a2" ∷ []) ∷ []
unfolding build_cluster_graphs group link_all index_from resolve get put parse_source_ref edge_tone
    index_of add ◌=t◌ sort severity_name_sort code_unit_compare
two_graphs = refl

-- `no_ref` at the applications of the bucket
named : (no_ref a1 ≡ false) × (no_ref unnamed ≡ true)
unfolding parse_source_ref
named = (refl, refl)

graphs_complete_example :
    (g : ClusterDepGraph) × In g
      (build_cluster_graphs code_unit_compare (a1 ∷ unnamed ∷ []) (main ∷ []))
    × (g.cluster_id ≡ codes "c1")
    × (In a1 g.apps ⊎ In a1 g.orphan_apps)
graphs_complete_example =
    (graphs_complete code_unit_compare (a1 ∷ unnamed ∷ []) (main ∷ [])).0 a1 (inl refl) named.0

edge_of_bucket : In (edge main a1) (cluster_graph code_unit_compare (codes "c1", bucket)).edges
unfolding cluster_graph link_all index_from resolve get put parse_source_ref edge_tone index_of add
    ◌=t◌
edge_of_bucket = inl refl

edges-Joins_example : Joins (cluster_graph code_unit_compare (codes "c1", bucket)) (edge main a1)
edges-Joins_example =
    edges-Joins code_unit_compare (codes "c1") bucket (omega arith) (omega arith) (edge main a1)
      edge_of_bucket

apps-perm_example :
    Perm
      ((cluster_graph code_unit_compare (codes "c1", bucket)).apps
        ++ ((cluster_graph code_unit_compare (codes "c1", bucket)).orphan_apps
            ++ keep no_ref bucket.apps))
      (stray ∷ a1 ∷ unnamed ∷ [])
apps-perm_example = apps-perm code_unit_compare (codes "c1") bucket

In-sources_iff_example :
    let g = cluster_graph code_unit_compare (codes "c1", bucket) in
    (In main g.sources
      ↔ (In main bucket.sources × (any (λ e. e.source_id =t main.id) g.edges ≡ true)))
    × (In main g.unused_sources
        ↔ (In main bucket.sources × (any (λ e. e.source_id =t main.id) g.edges ≡ false)))
In-sources_iff_example = In-sources_iff code_unit_compare (codes "c1") bucket main

get-group_example :
    get (codes "c2") (group two_apps two_sources)
    ≡ some (record {
      name = codes "c2";
      apps = app "a2" "c2" "default" "GitRepository/main" ∷ [];
      sources = src "s2" "c2" "flux" "main" ∷ [];
    })
unfolding ◌=t◌
get-group_example = get-group (codes "c2") two_apps two_sources

listed_orphan :
    In
      (app "a2" "c2" "default" "GitRepository/main")
      (cluster_graph code_unit_compare (
        codes "c2",
        record {
          name = codes "c2";
          apps = app "a2" "c2" "default" "GitRepository/main" ∷ [];
          sources = [];
        },
      )).orphan_apps
unfolding cluster_graph link_all index_from resolve get put parse_source_ref edge_tone index_of add
    ◌=t◌ sort
listed_orphan = inl refl

graph_of_c1 :
    In
      (cluster_graph code_unit_compare
        (codes "c1", record bucket { apps = a1 ∷ []; sources = main ∷ [] }))
      (build_cluster_graphs code_unit_compare (a1 ∷ []) (main ∷ []))
unfolding build_cluster_graphs group get put sort ◌=t◌
graph_of_c1 = inl refl

graphs-one_cluster_example :
    let g =
      cluster_graph code_unit_compare
        (codes "c1", record bucket { apps = a1 ∷ []; sources = main ∷ [] }) in
    ((a : Application) → ListsApp g a → In a (a1 ∷ []) × (a.cluster_id ≡ g.cluster_id))
    × ((s : Source) → ListsSource g s → In s (main ∷ []) × (s.cluster_id ≡ g.cluster_id))
graphs-one_cluster_example =
    graphs-one_cluster code_unit_compare (a1 ∷ []) (main ∷ []) _ graph_of_c1

two_of_c1 :
    In
      (cluster_graph code_unit_compare
        (codes "c1", record bucket { apps = a1 ∷ stray ∷ []; sources = main ∷ [] }))
      (build_cluster_graphs code_unit_compare (a1 ∷ stray ∷ []) (main ∷ []))
unfolding build_cluster_graphs group get put sort ◌=t◌
two_of_c1 = inl refl

graphs-reordered_example :
    let g =
      cluster_graph code_unit_compare
        (codes "c1", record bucket { apps = a1 ∷ stray ∷ []; sources = main ∷ [] }) in
    (h : ClusterDepGraph) × In h
      (build_cluster_graphs code_unit_compare (stray ∷ a1 ∷ []) (main ∷ []))
    × (drawing g ≡ drawing h)
graphs-reordered_example =
    graphs-reordered code_unit_compare (a1 ∷ stray ∷ []) (stray ∷ a1 ∷ []) (main ∷ [])
      (Perm.swap stray a1 []) _ two_of_c1
