-- ===== src/Queries/Tests.antt =====
-- web/src/lib/queries.ts: runs at concrete inputs, some of them those of its tests.
use yafu.Base.{
  ℕ, zero, suc, ◌&&◌, ltb, Bool, if◌then◌else◌, false, ◌≡◌, refl, true, none, some, Option, [], ◌∷◌,
  ◌++◌, Text, codes, ◌=t◌, join, All, length, keep, digits, decimal, arith,
}
use yafu.ApiTypes.{Application, Status, Sync, kustomization}
use yafu.Uri.{encode_uri_component, unit_text, unreserved, percent, octets, hex_digit}
use yafu.Uri.Decode.{IsUtf16}
use yafu.Base.Entries.{put}
use yafu.Queries.Requests.{mutation_request, request, spread_headers}
use yafu.Queries.{Serializer, ListName, Tab, list_path, use_list, use_tab, resource_url, logs_path}
use yafu.Queries.Keys.{Hook, query, key-path}
use yafu.Queries.Mutations.{rollback_url, Mutation, MutationVerb, mutation_url, app_action_url}
use yafu.Queries.Targets.{target_of, mutation_url-inj}
use yafu.Queries.Bulk.{
  Settled, settled, reconcile_all, posted, conclude, is_rejected, failure, failed,
}
use yafu.Queries.Settling.{At, reconcile_all-failed}

abbrev web : Application
web = record {
  id = codes "c1/default/web";
  name = codes "web";
  kind = kustomization;
  ns = codes "default";
  cluster = codes "prod";
  cluster_id = codes "eu 1";
  status = Status.healthy;
  sync = Sync.synced;
  source = [];
  revision = [];
  age = codes "1m";
  message = none;
  suspended = false;
  replicas = none;
}

-- A serializer for the tests: names and values as they are.
abbrev plain : Serializer
plain [] = []
plain ((n, v) ∷ ps) = n ++ b'=' ∷ (v ++ plain ps)

abbrev web_reconcile : Mutation
web_reconcile = Mutation.on_app web MutationVerb.reconcile

abbrev small : Text → Bool
small [] = true
small (c ∷ s) = ltb c 65536 && small s

ascii : (s : Text) → small s ≡ true → IsUtf16 s
ascii [] h = tt
ascii (c ∷ s) h = (ground arith, ascii s (ground arith))

abbrev web_url : Text
web_url = codes "/api/v1/applications/eu%201/default/Kustomization/web/reconcile"

web-mutation_url : mutation_url web_reconcile ≡ some web_url
unfolding mutation_url app_action_url resource_url join encode_uri_component unit_text unreserved
    percent octets hex_digit
web-mutation_url = refl

rollback-mutation_request :
    mutation_request (λ revision. revision) (Mutation.rollback web) (codes "1.2")
    ≡ some (record {
      path = codes "/api/v1/applications/eu%201/default/Kustomization/web/rollback";
      init = record {
        method = codes "POST";
        headers =
            (codes "Accept", codes "application/json")
            ∷ (codes "Content-Type", codes "application/json")
            ∷ [];
        body = some (codes "1.2");
      };
    })
unfolding mutation_request mutation_url rollback_url request spread_headers put ◌=t◌ resource_url
    join encode_uri_component unit_text unreserved percent octets hex_digit
rollback-mutation_request = refl

filtered-list_path :
    list_path ListName.sources (some (codes "a&b")) ≡ some (codes "/api/v1/sources?cluster=a%26b")
unfolding list_path encode_uri_component unit_text unreserved percent octets hex_digit
filtered-list_path = refl

web-logs_path :
    logs_path plain web none none (some 50)
    ≡ some (codes "/api/v1/applications/eu%201/default/Kustomization/web/logs?tail=50")
unfolding logs_path resource_url join encode_uri_component unit_text unreserved percent octets
    hex_digit digits decimal
web-logs_path = refl

-- A cluster whose id is `all` shares the cache entry of the unfiltered list, whose path differs.
all_cluster-key :
    (use_list ListName.sources none).key ≡ (use_list ListName.sources (some (codes "all"))).key
unfolding use_list
all_cluster-key = refl

known : Text → Option Application
known id = if id =t web.id then some web else none

known-web : known web.id ≡ some web
unfolding known ◌=t◌
known-web = refl

tree-enabled : (query plain (Hook.tab Tab.tree (some web) true)).enabled ≡ true
unfolding use_tab
tree-enabled = refl

key-path_example :
    (query plain (Hook.tab Tab.tree (some web) true)).path
    ≡ (query plain (Hook.tab Tab.tree (some web) true)).path
key-path_example =
    key-path plain known (Hook.tab Tab.tree (some web) true) (Hook.tab Tab.tree (some web) true)
      known-web known-web tree-enabled tree-enabled refl

web-parts : All IsUtf16 ((target_of web_reconcile).first ∷ (target_of web_reconcile).rest)
unfolding target_of
web-parts = (
  ascii (codes "eu 1") refl,
  (
    ascii (codes "default") refl,
    (ascii (codes "Kustomization") refl, (ascii (codes "web") refl, tt)),
  ),
)

mutation_url-inj_example :
    ((target_of web_reconcile).resource ≡ (target_of web_reconcile).resource)
    × ((target_of web_reconcile).first ∷ (target_of web_reconcile).rest
        ≡ (target_of web_reconcile).first ∷ (target_of web_reconcile).rest)
    × ((target_of web_reconcile).action ≡ (target_of web_reconcile).action)
mutation_url-inj_example =
    mutation_url-inj web_reconcile web_reconcile web_url web-parts web-parts web-mutation_url
      web-mutation_url

-- The first call is rejected, and the others are not.
abbrev post : ℕ → Text → Settled
post zero u = Settled.rejected (codes "HTTP 503")
post (suc i) u = Settled.fulfilled

web-reconcile_all :
    reconcile_all post (web ∷ web ∷ []) ≡ failed (codes "1 of 2 reconciles failed: HTTP 503")
unfolding reconcile_all settled posted conclude app_action_url resource_url join
    encode_uri_component unit_text unreserved percent octets hex_digit digits decimal
web-reconcile_all = refl

reconcile_all-failed_example :
    (i : ℕ) × (a : Application) × At i a (web ∷ web ∷ [])
    × ((u : Text) × (m : Text) × (app_action_url a MutationVerb.reconcile ≡ some u)
        × (post i u ≡ Settled.rejected m)
        × (codes "1 of 2 reconciles failed: HTTP 503"
            ≡ failure
                (length (keep is_rejected (settled post (posted (web ∷ web ∷ [])))))
                (length (web ∷ web ∷ []))
                m))
reconcile_all-failed_example =
    reconcile_all-failed post (web ∷ web ∷ []) (codes "1 of 2 reconciles failed: HTTP 503")
      web-reconcile_all
