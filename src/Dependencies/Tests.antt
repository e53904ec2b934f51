-- ===== src/Dependencies/Tests.antt =====
-- web/src/pages/Dependencies.tsx: runs at concrete inputs.
use yafu.Base.{◌≡◌, refl, false, none, [], ◌∷◌, Text, codes, ◌=t◌, In, String}
use yafu.Base.Entries.{get, put}
use yafu.ApiTypes.{Application, Source, Status, Sync, kustomization, git_repository}
use yafu.DepGraph.{ClusterDepGraph, DepEdge, EdgeTone}
use yafu.Dependencies.{StatusFilter, filter_graph, survives, index_sources, index_apps}
use yafu.Dependencies.Filter.{Ends, filter_graph-Ends}

abbrev app_of : String → Status → Application
app_of id status = record {
  id = codes id;
  name = codes id;
  kind = kustomization;
  ns = codes "default";
  cluster = codes "prod";
  cluster_id = codes "c1";
  status = status;
  sync = Sync.synced;
  source = codes "GitRepository/main";
  revision = [];
  age = codes "1m";
  message = none;
  suspended = false;
  replicas = none;
}

abbrev main : Source
main = record {
  id = codes "main";
  name = codes "main";
  kind = git_repository;
  ns = codes "default";
  cluster = codes "prod";
  cluster_id = codes "c1";
  url = [];
  ref = none;
  revision = none;
  status = Status.failing;
  interval = none;
  age = codes "1m";
  message = none;
  suspended = false;
}

abbrev edge_to : String → DepEdge
edge_to id = record { source_id = codes "main"; app_id = codes id; tone = EdgeTone.err }

abbrev graph : ClusterDepGraph
graph = record {
  cluster_id = codes "c1";
  cluster_name = codes "prod";
  sources = main ∷ [];
  apps = app_of "web" Status.failing ∷ app_of "api" Status.healthy ∷ [];
  edges = edge_to "web" ∷ edge_to "api" ∷ [];
  orphan_apps = [];
  unused_sources = [];
}

abbrev same : Text → Text
same t = t

failing_only-filter_graph :
    (filter_graph same same graph StatusFilter.failing []).edges ≡ edge_to "web" ∷ []
unfolding filter_graph survives index_sources index_apps get put ◌=t◌
failing_only-filter_graph = refl

filter_graph-Ends_example :
    let h = filter_graph same same graph StatusFilter.failing [] in
    ((e : DepEdge) → In e h.edges → In e graph.edges × Ends StatusFilter.failing h e)
    × ((s : Source)
        → In s h.sources
        → In s graph.sources × ((e : DepEdge) × In e h.edges × (e.source_id ≡ s.id)))
    × ((a : Application)
        → In a h.apps
        → In a graph.apps × ((e : DepEdge) × In e h.edges × (e.app_id ≡ a.id)))
filter_graph-Ends_example = filter_graph-Ends same same graph StatusFilter.failing []
