-- ===== src/Queries.antt =====
-- web/src/lib/queries.ts: the queries of the cache, each with its key and path, and the mutations.
-- The serializer of URLSearchParams belongs to the browser, and is a parameter.
pub mod Urls
pub mod Targets
pub mod Keys
pub mod Reach
pub mod Mutations
pub mod Requests
pub mod Bulk
pub mod Settling
mod Tests
use yafu.Base.{
  ℕ, ◌==◌, Bool, true, false, ◌&&◌, not, Option, none, some, or_else, is_some, List, [], ◌∷◌, ◌++◌,
  Text, codes, decimal, truthy, join, if◌then◌else◌,
}
use yafu.ApiTypes.{Application, Source, Alert, ImageUpdate, app_kind_text, source_kind_text}
use yafu.Uri.{encode_uri_component, encode_all}

pub data KeyPart : Type 0 where
  word : Text → KeyPart
  count : ℕ → KeyPart

abbrev pub Key : Type 0
Key = List KeyPart

abbrev pub poll_ms : ℕ
poll_ms = 5000

-- The options of `useQuery`. `path` is `none` where building it throws a URIError, and
-- `refetch_interval` is `none` for `false`.
pub record Query : Type 0 where
  pub key : Key
  pub path : Option Text
  pub refetch_interval : Option ℕ
  pub stale_time : ℕ
  pub enabled : Bool
  pub retry : Bool

-- A query with the library's defaults for the options that are not given.
abbrev pub polled : Key → Option Text → Query
polled key path = record {
  key = key;
  path = path;
  refetch_interval = some poll_ms;
  stale_time = 0;
  enabled = true;
  retry = true;
}

abbrev pub use_whoami : Query
use_whoami = record (polled (word (codes "whoami") ∷ []) (some (codes "/api/v1/whoami"))) {
  refetch_interval = none;
}

abbrev pub use_version : Query
use_version = record (polled (word (codes "version") ∷ []) (some (codes "/api/v1/version"))) {
  refetch_interval = none;
  stale_time = 60000;
}

abbrev pub use_clusters : Query
use_clusters = polled (word (codes "clusters") ∷ []) (some (codes "/api/v1/clusters"))

abbrev pub map_text : (Text → Text) → Option Text → Option Text
map_text f none = none
map_text f (some t) = some (f t)

-- The lists that one hook each fetches, for every cluster or for one.
pub data ListName : Type 0 where
  applications sources alerts image_updates events : ListName

abbrev pub list_text : ListName → Text
list_text applications = codes "applications"
list_text sources = codes "sources"
list_text alerts = codes "alerts"
list_text image_updates = codes "image-updates"
list_text events = codes "events"

unfoldable pub list_path : ListName → Option Text → Option Text
list_path l cluster_id =
    if truthy (or_else cluster_id [])
    then map_text (λ e. codes "/api/v1/" ++ (list_text l ++ (codes "?cluster=" ++ e)))
        (encode_uri_component (or_else cluster_id []))
    else some (codes "/api/v1/" ++ list_text l)

-- `useApplications`, `useSources`, `useAlerts`, `useImageUpdates` and `useEvents`
unfoldable pub use_list : ListName → Option Text → Query
use_list l cluster_id =
    polled (word (list_text l) ∷ word (or_else cluster_id (codes "all")) ∷ [])
      (list_path l cluster_id)

-- `/api/v1/<resource>/<encoded parts>/<last>`
abbrev pub url_of : Text → Text → Option (List Text) → Option Text
url_of resource last none = none
url_of resource last (some parts) =
    some (codes "/api/v1/" ++ (resource ++ b'/' ∷ (join (b'/' ∷ []) parts ++ b'/' ∷ last)))

unfoldable pub resource_url : Text → List Text → Text → Option Text
resource_url resource parts last = url_of resource last (encode_all parts)

abbrev pub app_parts : Application → List Text
app_parts a = a.cluster_id ∷ a.ns ∷ app_kind_text a.kind ∷ a.name ∷ []

-- The tabs of an application's page that one hook each fetches.
pub data Tab : Type 0 where
  diff render manifest tree history : Tab

abbrev pub tab_text : Tab → Text
tab_text diff = codes "diff"
tab_text render = codes "render"
tab_text manifest = codes "manifest"
tab_text tree = codes "tree"
tab_text history = codes "history"

unfoldable pub tab_path : Tab → Option Application → Option Text
tab_path t none = some []
tab_path t (some a) = resource_url (codes "applications") (app_parts a) (tab_text t)

abbrev pub id_or_empty : Option Application → Text
id_or_empty none = []
id_or_empty (some a) = a.id

-- Rendering is polled more slowly, and not retried.
abbrev pub tab_interval : Tab → ℕ
tab_interval render = 30000
tab_interval _ = poll_ms

abbrev pub tab_retry : Tab → Bool
tab_retry render = false
tab_retry _ = true

-- `useAppDiff`, `useAppRender`, `useAppManifest`, `useAppTree` and `useAppHistory`; only
-- `useAppRender` takes `enabled`, and the others are called with true.
unfoldable pub use_tab : Tab → Option Application → Bool → Query
unfolding tab_path
use_tab t app enabled = record {
  key = word (tab_text t) ∷ word (id_or_empty app) ∷ [];
  path = tab_path t app;
  refetch_interval = some (tab_interval t);
  stale_time = 0;
  enabled = is_some app && enabled;
  retry = tab_retry t;
}

-- What the serializer of URLSearchParams makes of names and values.
abbrev pub Serializer : Type 0
Serializer = List (Text × Text) → Text

-- `params.set` of a name that is not set yet, for a text and a number that are tested for truth
abbrev pub text_param : Text → Option Text → List (Text × Text)
text_param name o = if truthy (or_else o []) then (name, or_else o []) ∷ [] else []

abbrev pub number_param : Text → ℕ → List (Text × Text)
number_param name n = if n == 0 then [] else (name, decimal n) ∷ []

module _ (serialize : Serializer) where
  unfoldable pub logs_path : Application → Option Text → Option Text → Option ℕ → Option Text
  logs_path a pod container tail =
      let params = serialize (
        text_param (codes "pod") pod
        ++ (text_param (codes "container") container
            ++ number_param (codes "tail") (or_else tail 0))) in
      map_text (λ base. if truthy params then base ++ b'?' ∷ params else base)
        (resource_url (codes "applications") (app_parts a) (codes "logs"))

  abbrev pub logs_path_of : Option Application → Option Text → Option Text → Option ℕ → Option Text
  logs_path_of none pod container tail = some []
  logs_path_of (some a) pod container tail = logs_path a pod container tail

  unfoldable pub use_app_logs : Option Application → Option Text → Option Text → Option ℕ → Query
  unfolding logs_path
  use_app_logs app pod container tail =
      record (polled
        (word (codes "logs")
          ∷ word (id_or_empty app)
          ∷ word (or_else pod [])
          ∷ word (or_else container [])
          ∷ count (or_else tail 0)
          ∷ [])
        (logs_path_of app pod container tail)) { enabled = is_some app }

  unfoldable pub events_path : Option Application → Option Text
  events_path none = some []
  events_path (some a) = some (
      codes "/api/v1/events?"
      ++ serialize (
          (codes "cluster", a.cluster_id)
          ∷ (codes "ns", a.ns)
          ∷ (codes "kind", app_kind_text a.kind)
          ∷ (codes "name", a.name)
          ∷ []))

  unfoldable pub use_app_events : Option Application → Query
  unfolding events_path
  use_app_events app =
      record (polled (word (codes "events") ∷ word (codes "app") ∷ word (id_or_empty app) ∷ [])
        (events_path app)) { enabled = is_some app }
