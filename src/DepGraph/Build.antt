-- ===== src/DepGraph/Build.antt =====
-- web/src/lib/depGraph.ts, buildClusterGraphs: grouping by cluster, one graph for each cluster, and
-- the order of the graphs. `sort` arranges fresh arrays, so no other value changes with it.
use yafu.Base.{◌++◌, not, Option, none, some, List, [], ◌∷◌, map, Text, has, keep}
use yafu.Base.Entries.{Entries, get, put}
use yafu.Base.Sort.{Comparator, sort}
use yafu.ApiTypes.{Application, Source}
use yafu.DepGraph.{ClusterDepGraph, LocaleCompare, severity_name_sort}
use yafu.DepGraph.Index.{empty_index, index_from}
use yafu.DepGraph.Link.{no_links, link_all}

pub record Bucket : Type 0 where
  pub name : Text
  pub apps : List Application
  pub sources : List Source

-- `seed`, for the bucket that `get` found
abbrev pub seed : Text → Option Bucket → Bucket
seed name none = record { name = name; apps = []; sources = [] }
seed name (some b) = b

abbrev pub with_app : Application → Bucket → Bucket
with_app a b = record b { apps = b.apps ++ a ∷ [] }

abbrev pub with_source : Source → Bucket → Bucket
with_source s b = record b { sources = b.sources ++ s ∷ [] }

-- `seed`, then `push` on the array that the map holds
unfoldable pub add_app : Entries Bucket → Application → Entries Bucket
add_app m a = put a.cluster_id (with_app a (seed a.cluster (get a.cluster_id m))) m

unfoldable pub add_source : Entries Bucket → Source → Entries Bucket
add_source m s = put s.cluster_id (with_source s (seed s.cluster (get s.cluster_id m))) m

unfoldable pub add_apps : Entries Bucket → List Application → Entries Bucket
add_apps m [] = m
add_apps m (a ∷ as') = add_apps (add_app m a) as'

unfoldable pub add_sources : Entries Bucket → List Source → Entries Bucket
add_sources m [] = m
add_sources m (s ∷ ss) = add_sources (add_source m s) ss

unfoldable pub group : List Application → List Source → Entries Bucket
unfolding add_apps add_sources add_app add_source
group apps sources = add_sources (add_apps [] apps) sources

module _ (locale_compare : LocaleCompare) where
  abbrev pub by_app : Comparator Application
  by_app = severity_name_sort locale_compare (λ a. a.status) (λ a. a.name)

  abbrev pub by_source : Comparator Source
  by_source = severity_name_sort locale_compare (λ s. s.status) (λ s. s.name)

  abbrev pub by_cluster_name : Comparator ClusterDepGraph
  by_cluster_name a b = locale_compare a.cluster_name b.cluster_name

  -- what the loop over the buckets pushes for one cluster
  unfoldable pub cluster_graph : Text × Bucket → ClusterDepGraph
  cluster_graph (cluster_id, b) =
      let links = link_all (index_from empty_index b.sources) no_links b.apps in
      record {
        cluster_id = cluster_id;
        cluster_name = b.name;
        sources = sort by_source (keep (λ s. has s.id links.used_sources) b.sources);
        apps = sort by_app links.matched_apps;
        edges = links.edges;
        orphan_apps = sort by_app links.orphan_apps;
        unused_sources = sort by_source (keep (λ s. not (has s.id links.used_sources)) b.sources);
      }

  unfoldable pub build_cluster_graphs : List Application → List Source → List ClusterDepGraph
  unfolding cluster_graph
  build_cluster_graphs apps sources = sort by_cluster_name (map cluster_graph (group apps sources))
