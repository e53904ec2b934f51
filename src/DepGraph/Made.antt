-- ===== src/DepGraph/Made.antt =====
-- web/src/lib/depGraph.ts, buildClusterGraphs: the bucket that each graph is made of.
use yafu.Base.{
  not, keep, keep-In, Bool-cases, false, In-keep, ◌≡◌, refl, sym, ◌∙◌, some, List, [], ◌∷◌, Text,
  In, In-map, map-In, arith, inl, inr, ◌⊎◌, ◌≢◌,
}
use yafu.Base.Entries.{get-In, In-get}
use yafu.Base.Sort.{sort, sort-In, In-sort}
use yafu.ApiTypes.{Application, Source}
use yafu.DepGraph.Loop.{is_orphan, is_linked}
use yafu.DepGraph.Columns.{index_of_bucket, bucket_edges, is_used, no_ref, cluster_graph_lem}
use yafu.DepGraph.{ClusterDepGraph, LocaleCompare}
use yafu.DepGraph.Build.{
  by_app, by_source, Bucket, by_cluster_name, cluster_graph, build_cluster_graphs,
}
use yafu.DepGraph.Clusters.{bucket_of, apps_in, sources_in, get-group, group-Distinct}

-- The bucket that a graph is made of.
pub record MadeOf (lc : LocaleCompare) (apps : List Application) (sources : List Source)
    (g : ClusterDepGraph) : Type 0 where
  pub id : Text
  pub bucket : Bucket
  pub found : bucket_of (apps_in id apps) (sources_in id sources) ≡ some bucket
  pub made : g ≡ cluster_graph lc (id, bucket)

pub bucket_apps :
    (as' : List Application) (ss : List Source) (b : Bucket)
    → bucket_of as' ss ≡ some b
    → (b.apps ≡ as') × (b.sources ≡ ss)
bucket_apps [] [] b e = cc
bucket_apps [] (s ∷ ss) b e = ground arith
bucket_apps (a ∷ as') ss b e = ground arith

pub bucket_of-some :
    (as' : List Application) (ss : List Source)
    → (as' ≢ []) ⊎ (ss ≢ [])
    → (b : Bucket) × (bucket_of as' ss ≡ some b)
bucket_of-some [] [] (inl h) = absurd (h refl)
bucket_of-some [] [] (inr h) = absurd (h refl)
bucket_of-some [] (s ∷ ss) h = (_, refl)
bucket_of-some (a ∷ as') ss h = (_, refl)

module _ (lc : LocaleCompare) (apps : List Application) (sources : List Source) where
  pub graph-MadeOf :
      (g : ClusterDepGraph) → In g (build_cluster_graphs lc apps sources) → MadeOf lc apps sources g
  unfolding build_cluster_graphs
  graph-MadeOf g k =
      let ((c, b), i, e) = map-In (cluster_graph lc) g _ (sort-In (by_cluster_name lc) g _ k) in
      record {
        id = c;
        bucket = b;
        found = sym (get-group c apps sources) ∙ In-get c b _ (group-Distinct apps sources) i;
        made = sym e;
      }

  pub MadeOf-graph :
      (c : Text) (b : Bucket)
      → bucket_of (apps_in c apps) (sources_in c sources) ≡ some b
      → In (cluster_graph lc (c, b)) (build_cluster_graphs lc apps sources)
  unfolding build_cluster_graphs
  MadeOf-graph c b e =
      In-sort (by_cluster_name lc) _ _
        (In-map (cluster_graph lc) (c, b) _ (get-In c b _ (get-group c apps sources ∙ e)))

-- Where an application stands in a graph.
abbrev pub ListsApp : ClusterDepGraph → Application → Type 0
ListsApp g a = In a g.apps ⊎ In a g.orphan_apps

abbrev pub ListsSource : ClusterDepGraph → Source → Type 0
ListsSource g s = In s g.sources ⊎ In s g.unused_sources

module _ (lc : LocaleCompare) (c : Text) (b : Bucket) where
  pub listed_app : (a : Application) → ListsApp (cluster_graph lc (c, b)) a → In a b.apps
  listed_app a k = from_columns (rw (cluster_graph_lem lc c b) at k)
    where
      from_columns :
          In a (sort (by_app lc) (keep (is_linked (index_of_bucket b)) b.apps))
            ⊎ In a (sort (by_app lc) (keep (is_orphan (index_of_bucket b)) b.apps))
          → In a b.apps
      from_columns (inl i) = (In-keep _ a b.apps (sort-In (by_app lc) a _ i)).0
      from_columns (inr i) = (In-keep _ a b.apps (sort-In (by_app lc) a _ i)).0

  pub listed_source : (s : Source) → ListsSource (cluster_graph lc (c, b)) s → In s b.sources
  listed_source s k = from_columns (rw (cluster_graph_lem lc c b) at k)
    where
      from_columns :
          In s (sort (by_source lc) (keep (is_used (bucket_edges b)) b.sources))
            ⊎ In s (sort (by_source lc) (keep (λ x. not (is_used (bucket_edges b) x)) b.sources))
          → In s b.sources
      from_columns (inl i) = (In-keep _ s b.sources (sort-In (by_source lc) s _ i)).0
      from_columns (inr i) = (In-keep _ s b.sources (sort-In (by_source lc) s _ i)).0

  pub app_listed :
      (a : Application) → In a b.apps → no_ref a ≡ false → ListsApp (cluster_graph lc (c, b)) a
  app_listed a i named =
      rw (cluster_graph_lem lc c b) (elim (Bool-cases (is_linked (index_of_bucket b) a)) [
        | inl e ↦ inl (In-sort (by_app lc) a _ (keep-In _ a b.apps i e))
        | inr e ↦ inr (In-sort (by_app lc) a _ (keep-In _ a b.apps i (ground arith)))
      ])

  pub source_listed : (s : Source) → In s b.sources → ListsSource (cluster_graph lc (c, b)) s
  source_listed s i =
      rw (cluster_graph_lem lc c b) (elim (Bool-cases (is_used (bucket_edges b) s)) [
        | inl e ↦ inl (In-sort (by_source lc) s _ (keep-In _ s b.sources i e))
        | inr e ↦ inr (In-sort (by_source lc) s _ (keep-In _ s b.sources i (rw e)))
      ])

  pub cluster_graph-id : (cluster_graph lc (c, b)).cluster_id ≡ c
  unfolding cluster_graph
  cluster_graph-id = refl
