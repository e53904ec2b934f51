-- ===== src/Queries/Keys.antt =====
-- web/src/lib/queries.ts: a key of the cache stands for one path, so no two hooks fill one entry of
-- the cache from different paths.
use yafu.Base.{
  ℕ, ◌≡◌, ◌≢◌, refl, sym, ap, ◌∙◌, Bool, true, Bool-cases, Option, none, some, or_else, [], ◌∷◌,
  Text, codes, ◌=t◌, =t_eq, =t_refl, if◌then◌else◌, inl, inr,
}
use yafu.ApiTypes.{Application}
use yafu.Queries.{
  Key, Query, use_whoami, use_version, use_clusters, ListName, list_text, list_path, use_list, Tab,
  tab_text, tab_path, use_tab, Serializer, logs_path, logs_path_of, use_app_logs, events_path,
  use_app_events, text_param, word, count,
}

-- A call of a hook.
pub data Hook : Type 0 where
  whoami version clusters : Hook
  list : ListName → Option Text → Hook
  tab : Tab → Option Application → Bool → Hook
  logs : Option Application → Option Text → Option Text → Option ℕ → Hook
  app_events : Option Application → Hook

module _ (serialize : Serializer) where
  abbrev pub query : Hook → Query
  query whoami = use_whoami
  query version = use_version
  query clusters = use_clusters
  query (list l c) = use_list l c
  query (tab t a e) = use_tab t a e
  query (logs a p c n) = use_app_logs serialize a p c n
  query (app_events a) = use_app_events serialize a

list_named : Text → Option ListName
list_named t =
    if t =t codes "applications"
    then some ListName.applications
    else if t =t codes "sources"
    then some ListName.sources
    else if t =t codes "alerts"
    then some ListName.alerts
    else if t =t codes "image-updates"
    then some ListName.image_updates
    else if t =t codes "events"
    then some ListName.events
    else none

list_named-list_text : (l : ListName) → list_named (list_text l) ≡ some l
unfolding list_named ◌=t◌
list_named-list_text ListName.applications = refl
list_named-list_text ListName.sources = refl
list_named-list_text ListName.alerts = refl
list_named-list_text ListName.image_updates = refl
list_named-list_text ListName.events = refl

tab_named : Text → Tab
tab_named t =
    if t =t codes "diff"
    then Tab.diff
    else if t =t codes "render"
    then Tab.render
    else if t =t codes "manifest"
    then Tab.manifest
    else if t =t codes "tree"
    then Tab.tree
    else Tab.history

tab_named-tab_text : (t : Tab) → tab_named (tab_text t) ≡ t
unfolding tab_named ◌=t◌
tab_named-tab_text Tab.diff = refl
tab_named-tab_text Tab.render = refl
tab_named-tab_text Tab.manifest = refl
tab_named-tab_text Tab.tree = refl
tab_named-tab_text Tab.history = refl

tab_is_no_list : (t : Tab) → list_named (tab_text t) ≡ none
unfolding list_named ◌=t◌
tab_is_no_list Tab.diff = refl
tab_is_no_list Tab.render = refl
tab_is_no_list Tab.manifest = refl
tab_is_no_list Tab.tree = refl
tab_is_no_list Tab.history = refl

-- The cluster that a list's key names.
cluster_named : Text → Option Text
cluster_named c = if c =t codes "all" then none else some c

cluster_named-or_all :
    (o : Option Text) → o ≢ some (codes "all") → cluster_named (or_else o (codes "all")) ≡ o
unfolding cluster_named
cluster_named-or_all none h = rw (=t_refl (codes "all")) refl
cluster_named-or_all (some c) h = elim (Bool-cases (c =t codes "all")) [
  | inl e ↦ absurd (h (ap some (=t_eq c (codes "all") e)))
  | inr e ↦ rw e refl
]

-- What a hook's arguments must satisfy: no cluster is called `all`, and the application is the one
-- that is known by its id.
abbrev pub IsKnown : (Text → Option Application) → Hook → Type 0
IsKnown known (list l c) = c ≢ some (codes "all")
IsKnown known (tab t (some a) e) = known a.id ≡ some a
IsKnown known (logs (some a) p c n) = known a.id ≡ some a
IsKnown known (app_events (some a)) = known a.id ≡ some a
IsKnown known _ = Unit {0}

module _ (serialize : Serializer) (known : Text → Option Application) where
  pair_path : Option ListName → Text → Text → Option Text
  pair_path (some l) t x = list_path l (cluster_named x)
  pair_path none t x = tab_path (tab_named t) (known x)

  single_path : Text → Option Text
  single_path t =
      if t =t codes "whoami"
      then some (codes "/api/v1/whoami")
      else if t =t codes "version"
      then some (codes "/api/v1/version")
      else some (codes "/api/v1/clusters")

  -- The path that a key stands for.
  path_of : Key → Option Text
  path_of (word t ∷ []) = single_path t
  path_of (word t ∷ word x ∷ []) = pair_path (list_named t) t x
  path_of (word t ∷ word s ∷ word x ∷ []) = events_path serialize (known x)
  path_of (word t ∷ word x ∷ word p ∷ word c ∷ count n ∷ []) =
      logs_path_of serialize (known x) (some p) (some c) (some n)
  path_of _ = none

  text_param-or :
      (name : Text) (o : Option Text) → text_param name (some (or_else o [])) ≡ text_param name o
  text_param-or name none = refl
  text_param-or name (some t) = refl

  logs_path-or :
      (a : Application) (p c : Option Text) (n : Option ℕ)
      → logs_path serialize a (some (or_else p [])) (some (or_else c [])) (some (or_else n 0))
        ≡ logs_path serialize a p c n
  unfolding logs_path
  logs_path-or a p c n =
      rw (text_param-or (codes "pod") p, text_param-or (codes "container") c) refl

  path_of-key :
      (h : Hook)
      → IsKnown known h
      → (query serialize h).enabled ≡ true
      → path_of (query serialize h).key ≡ (query serialize h).path
  unfolding path_of pair_path single_path use_list use_tab use_app_logs use_app_events ◌=t◌
  path_of-key whoami k e = refl
  path_of-key version k e = refl
  path_of-key clusters k e = refl
  path_of-key (list l c) k e = rw (list_named-list_text l, cluster_named-or_all c k) refl
  path_of-key (tab t none en) k e = cc
  path_of-key (tab t (some a) en) k e = rw (tab_is_no_list t, tab_named-tab_text t, k) refl
  path_of-key (logs none p c n) k e = cc
  path_of-key (logs (some a) p c n) k e = rw k (logs_path-or a p c n)
  path_of-key (app_events none) k e = cc
  path_of-key (app_events (some a)) k e = rw k refl

  -- Two enabled queries with one key fetch the same path, and one fails to build it where the other
  -- does, provided that no cluster's id is `all` and that an id belongs to one application.
  pub key-path :
      (h g : Hook)
      → IsKnown known h
      → IsKnown known g
      → (query serialize h).enabled ≡ true
      → (query serialize g).enabled ≡ true
      → (query serialize h).key ≡ (query serialize g).key
      → (query serialize h).path ≡ (query serialize g).path
  key-path h g kh kg eh eg e = sym (path_of-key h kh eh) ∙ ap path_of e ∙ path_of-key g kg eg
