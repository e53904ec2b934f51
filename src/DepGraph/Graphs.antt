-- ===== src/DepGraph/Graphs.antt =====
-- web/src/lib/depGraph.ts, buildClusterGraphs: the list of graphs against the two input lists.
use yafu.Base.{
  ap, =t_refl, keep-In, =t_eq, ◌=t◌, false, In-keep, ◌≡◌, sym, ◌∙◌, some, List, [], ◌∷◌, Text, In,
  inl, inr, ◌≢◌,
}
use yafu.Base.Sort.{sort-IsSorted, IsSorted, IsConsistent}
use yafu.ApiTypes.{Application, Source}
use yafu.DepGraph.Columns.{no_ref}
use yafu.DepGraph.{ClusterDepGraph, LocaleCompare}
use yafu.DepGraph.Build.{Bucket, by_cluster_name, cluster_graph, build_cluster_graphs}
use yafu.DepGraph.Clusters.{bucket_of, apps_in, sources_in}
use yafu.DepGraph.Made.{
  ListsApp, ListsSource, bucket_apps, bucket_of-some, graph-MadeOf, MadeOf-graph, listed_app,
  listed_source, app_listed, source_listed, cluster_graph-id,
}

-- Everything that a graph lists comes from the input and is of the graph's own cluster.
pub graphs-one_cluster :
    (lc : LocaleCompare) (apps : List Application) (sources : List Source) (g : ClusterDepGraph)
    → In g (build_cluster_graphs lc apps sources)
    → ((a : Application) → ListsApp g a → In a apps × (a.cluster_id ≡ g.cluster_id))
      × ((s : Source) → ListsSource g s → In s sources × (s.cluster_id ≡ g.cluster_id))
graphs-one_cluster lc apps sources g k =
    let m = graph-MadeOf lc apps sources g k in
    let (same_apps, same_sources) = bucket_apps _ _ m.bucket m.found in
    rw m.made (
      rw (cluster_graph-id lc m.id m.bucket) (
        λ a i.
            let (j, e) =
              In-keep (λ x. x.cluster_id =t m.id) a apps
                (rw same_apps at (listed_app lc m.id m.bucket a i)) in
            (j, =t_eq _ _ e),
        λ s i.
            let (j, e) =
              In-keep (λ x. x.cluster_id =t m.id) s sources
                (rw same_sources at (listed_source lc m.id m.bucket s i)) in
            (j, =t_eq _ _ e),
      ))

ne_nil : {A : Type 0} (a : A) (xs : List A) → In a xs → xs ≢ []
ne_nil a [] i = elim i [ ]
ne_nil a (x ∷ xs) i = λ e. cc

-- Every application that names a source is listed in the graph of its cluster, as linked or as an
-- orphan, and every source is listed in the graph of its cluster, as used or as unused.
pub graphs_complete :
    (lc : LocaleCompare) (apps : List Application) (sources : List Source)
    → ((a : Application)
        → In a apps
        → no_ref a ≡ false
        → (g : ClusterDepGraph) × In g (build_cluster_graphs lc apps sources)
          × (g.cluster_id ≡ a.cluster_id)
          × ListsApp g a)
      × ((s : Source)
          → In s sources
          → (g : ClusterDepGraph) × In g (build_cluster_graphs lc apps sources)
            × (g.cluster_id ≡ s.cluster_id)
            × ListsSource g s)
graphs_complete lc apps sources = (complete_apps, complete_sources)
  where
    complete_apps :
        (a : Application)
        → In a apps
        → no_ref a ≡ false
        → (g : ClusterDepGraph) × In g (build_cluster_graphs lc apps sources)
          × (g.cluster_id ≡ a.cluster_id)
          × ListsApp g a
    complete_apps a i named =
        let c = a.cluster_id in
        let j : In a (apps_in c apps) = keep-In (λ x. x.cluster_id =t c) a apps i (=t_refl c) in
        let (b, found) =
          bucket_of-some (apps_in c apps) (sources_in c sources) (inl (ne_nil a _ j)) in
        (
          cluster_graph lc (c, b),
          MadeOf-graph lc apps sources c b found,
          cluster_graph-id lc c b,
          app_listed lc c b a (rw (bucket_apps _ _ b found).0 j) named,
        )

    complete_sources :
        (s : Source)
        → In s sources
        → (g : ClusterDepGraph) × In g (build_cluster_graphs lc apps sources)
          × (g.cluster_id ≡ s.cluster_id)
          × ListsSource g s
    complete_sources s i =
        let c = s.cluster_id in
        let j : In s (sources_in c sources) =
          keep-In (λ x. x.cluster_id =t c) s sources i (=t_refl c) in
        let (b, found) =
          bucket_of-some (apps_in c apps) (sources_in c sources) (inr (ne_nil s _ j)) in
        (
          cluster_graph lc (c, b),
          MadeOf-graph lc apps sources c b found,
          cluster_graph-id lc c b,
          source_listed lc c b s (rw (bucket_apps _ _ b found).1 j),
        )

same_graph :
    (lc : LocaleCompare) (apps : List Application) (sources : List Source) (c d : Text)
    (b b' : Bucket)
    → c ≡ d
    → bucket_of (apps_in c apps) (sources_in c sources) ≡ some b
    → bucket_of (apps_in d apps) (sources_in d sources) ≡ some b'
    → cluster_graph lc (c, b) ≡ cluster_graph lc (d, b')
same_graph lc apps sources c d b b' e p q =
    let same : some b ≡ some b' =
      sym p ∙ ap (λ x. bucket_of (apps_in x apps) (sources_in x sources)) e ∙ q in
    cc

-- Where the host's comparison of names is a total preorder, the graphs are in the order of their
-- clusters' names, and no two are of one cluster.
pub graphs-IsSorted :
    (lc : LocaleCompare) (apps : List Application) (sources : List Source)
    → IsConsistent lc
    → IsSorted (by_cluster_name lc) (build_cluster_graphs lc apps sources)
      × ((g h : ClusterDepGraph)
          → In g (build_cluster_graphs lc apps sources)
          → In h (build_cluster_graphs lc apps sources)
          → g.cluster_id ≡ h.cluster_id
          → g ≡ h)
unfolding build_cluster_graphs
graphs-IsSorted lc apps sources k = (graphs_sorted, one_graph)
  where
    graphs_sorted : IsSorted (by_cluster_name lc) (build_cluster_graphs lc apps sources)
    graphs_sorted =
        sort-IsSorted (by_cluster_name lc)
          (record {
            total = λ g h. k.total g.cluster_name h.cluster_name;
            trans = λ g h l. k.trans g.cluster_name h.cluster_name l.cluster_name;
          })
          _

    one_graph :
        (g h : ClusterDepGraph)
        → In g (build_cluster_graphs lc apps sources)
        → In h (build_cluster_graphs lc apps sources)
        → g.cluster_id ≡ h.cluster_id
        → g ≡ h
    one_graph g h i j e =
        let m = graph-MadeOf lc apps sources g i in
        let n = graph-MadeOf lc apps sources h j in
        let ids : m.id ≡ n.id =
          sym (cluster_graph-id lc m.id m.bucket)
          ∙ sym (ap (λ x. x.cluster_id) m.made)
          ∙ e
          ∙ ap (λ x. x.cluster_id) n.made
          ∙ cluster_graph-id lc n.id n.bucket in
        m.made
        ∙ same_graph lc apps sources m.id n.id m.bucket n.bucket ids m.found n.found
        ∙ sym n.made
