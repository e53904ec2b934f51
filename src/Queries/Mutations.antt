-- ===== src/Queries/Mutations.antt =====
-- web/src/lib/queries.ts: the mutations, the URL that each posts to, and the keys that it
-- invalidates when it succeeds.
use yafu.Base.{Option, List, [], ◌∷◌, Text, codes}
use yafu.ApiTypes.{Application, Source, Alert, ImageUpdate, source_kind_text}
use yafu.Queries.{Key, word, resource_url, app_parts}

pub data MutationVerb : Type 0 where
  reconcile suspend resume : MutationVerb

abbrev pub verb_text : MutationVerb → Text
verb_text reconcile = codes "reconcile"
verb_text suspend = codes "suspend"
verb_text resume = codes "resume"

unfoldable pub app_action_url : Application → MutationVerb → Option Text
app_action_url a verb = resource_url (codes "applications") (app_parts a) (verb_text verb)

-- the path that `useRollbackApp` posts to
unfoldable pub rollback_url : Application → Option Text
rollback_url a = resource_url (codes "applications") (app_parts a) (codes "rollback")

abbrev pub image_parts : ImageUpdate → Text → List Text
image_parts u kind = u.cluster_id ∷ u.ns ∷ kind ∷ u.name ∷ []

unfoldable pub image_action_url : ImageUpdate → MutationVerb → Text → Option Text
image_action_url u verb kind =
    resource_url (codes "image-updates") (image_parts u kind) (verb_text verb)

abbrev pub source_parts : Source → List Text
source_parts s = s.cluster_id ∷ s.ns ∷ source_kind_text s.kind ∷ s.name ∷ []

unfoldable pub source_action_url : Source → MutationVerb → Option Text
source_action_url s verb = resource_url (codes "sources") (source_parts s) (verb_text verb)

abbrev pub alert_parts : Alert → Text → List Text
alert_parts a kind = a.cluster_id ∷ a.ns ∷ kind ∷ a.name ∷ []

unfoldable pub alert_action_url : Alert → MutationVerb → Text → Option Text
alert_action_url a verb kind = resource_url (codes "alerts") (alert_parts a kind) (verb_text verb)

abbrev key_of : Text → Key
key_of t = word t ∷ []

-- A mutation of the client. The image and alert mutations leave their kind at its default.
pub data Mutation : Type 0 where
  on_app : Application → MutationVerb → Mutation
  on_image : ImageUpdate → MutationVerb → Mutation
  on_source : Source → MutationVerb → Mutation
  on_alert : Alert → MutationVerb → Mutation
  rollback : Application → Mutation

-- Where the mutation function posts.
unfoldable pub mutation_url : Mutation → Option Text
unfolding app_action_url image_action_url source_action_url alert_action_url rollback_url
mutation_url (on_app a v) = app_action_url a v
mutation_url (on_image u v) = image_action_url u v (codes "ImagePolicy")
mutation_url (on_source s v) = source_action_url s v
mutation_url (on_alert a v) = alert_action_url a v (codes "Alert")
mutation_url (rollback a) = rollback_url a

-- The keys that `onSuccess` invalidates.
unfoldable pub invalidated_by : Mutation → List Key
invalidated_by (on_app a v) = key_of (codes "applications") ∷ key_of (codes "clusters") ∷ []
invalidated_by (on_image u v) = key_of (codes "image-updates") ∷ []
invalidated_by (on_source s v) = key_of (codes "sources") ∷ key_of (codes "applications") ∷ []
invalidated_by (on_alert a v) = key_of (codes "alerts") ∷ []
invalidated_by (rollback a) =
    key_of (codes "applications") ∷ (word (codes "history") ∷ word a.id ∷ []) ∷ []
