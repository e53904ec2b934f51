-- ===== src/Queries/Reach.antt =====
-- web/src/lib/stream.ts and queries.ts: which queries an event of an application can reach, by the
-- first part of their keys.
use yafu.Base.{Bool, true, false, or_else, List, [], ◌∷◌, map, Text, codes}
use yafu.Base.Entries.{get}
use yafu.Stream.{QueryKey, invalidations}
use yafu.Queries.{Key, word, ListName}
use yafu.Queries.Keys.{Hook}

abbrev first_word : QueryKey → Text
first_word [] = []
first_word (t ∷ ts) = t

-- The first parts that the table has for a kind.
unfoldable pub first_words : Text → List Text
first_words kind = map first_word (or_else (get kind invalidations) [])

abbrev pub first_part : Key → Text
first_part (word t ∷ _) = t
first_part _ = []

-- The kinds of Flux that the server watches, and what each one is about.
pub data WatchedKind : Type 0 where
  kustomization helm_release : WatchedKind
  git_repository helm_repository oci_repository bucket : WatchedKind
  alert provider receiver : WatchedKind
  image_policy image_repository image_update_automation : WatchedKind

pub data Family : Type 0 where
  application source notification image : Family

abbrev pub kind_text : WatchedKind → Text
kind_text kustomization = codes "Kustomization"
kind_text helm_release = codes "HelmRelease"
kind_text git_repository = codes "GitRepository"
kind_text helm_repository = codes "HelmRepository"
kind_text oci_repository = codes "OCIRepository"
kind_text bucket = codes "Bucket"
kind_text alert = codes "Alert"
kind_text provider = codes "Provider"
kind_text receiver = codes "Receiver"
kind_text image_policy = codes "ImagePolicy"
kind_text image_repository = codes "ImageRepository"
kind_text image_update_automation = codes "ImageUpdateAutomation"

abbrev pub family : WatchedKind → Family
family kustomization = application
family helm_release = application
family git_repository = source
family helm_repository = source
family oci_repository = source
family bucket = source
family alert = notification
family provider = notification
family receiver = notification
family image_policy = image
family image_repository = image
family image_update_automation = image

-- The queries that an event of a family is meant for: the list of that family, filtered or not, and
-- for an application the clusters, which count applications.
abbrev pub refreshes : Family → Hook → Bool
refreshes application Hook.clusters = true
refreshes application (Hook.list ListName.applications c) = true
refreshes source (Hook.list ListName.sources c) = true
refreshes notification (Hook.list ListName.alerts c) = true
refreshes image (Hook.list ListName.image_updates c) = true
refreshes _ _ = false

abbrev words : Family → List Text
words f = first_words (elim f [
  | application ↦ codes "Kustomization"
  | source ↦ codes "Bucket"
  | notification ↦ codes "Alert"
  | image ↦ codes "ImagePolicy"
])
