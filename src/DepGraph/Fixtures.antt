-- ===== src/DepGraph/Fixtures.antt =====
-- web/src/lib/depGraph.ts: the inputs of the tests.
use yafu.Base.{false, none, List, [], ◌∷◌, String, codes}
use yafu.ApiTypes.{Application, Source, kustomization, Status, Sync, git_repository}
use yafu.DepGraph.Build.{Bucket}

abbrev pub app : String → String → String → String → Application
app id cluster ns source = record {
  id = codes id;
  name = codes id;
  kind = kustomization;
  ns = codes ns;
  cluster = codes cluster;
  cluster_id = codes cluster;
  status = Status.healthy;
  sync = Sync.synced;
  source = codes source;
  revision = [];
  age = codes "1m";
  message = none;
  suspended = false;
  replicas = none;
}

abbrev pub src : String → String → String → String → Source
src id cluster ns name = record {
  id = codes id;
  name = codes name;
  kind = git_repository;
  ns = codes ns;
  cluster = codes cluster;
  cluster_id = codes cluster;
  url = [];
  ref = none;
  revision = none;
  status = Status.healthy;
  interval = none;
  age = codes "1m";
  message = none;
  suspended = false;
}

abbrev pub two_apps : List Application
two_apps = app "a2" "c2" "default" "GitRepository/main" ∷ app "a1" "c1" "default" "main" ∷ []

abbrev pub two_sources : List Source
two_sources = src "s1" "c1" "default" "main" ∷ src "s2" "c2" "flux" "main" ∷ []

abbrev pub a1 : Application
a1 = app "a1" "c1" "default" "GitRepository/main"

abbrev pub stray : Application
stray = app "a3" "c1" "default" "OCIRepository/other"

abbrev pub unnamed : Application
unnamed = app "a4" "c1" "default" ""

abbrev pub main : Source
main = src "s1" "c1" "default" "main"

abbrev pub spare : Source
spare = src "s2" "c1" "default" "spare"

abbrev pub bucket : Bucket
bucket = record { name = codes "c1"; apps = stray ∷ a1 ∷ unnamed ∷ []; sources = spare ∷ main ∷ [] }
