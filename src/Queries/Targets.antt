-- ===== src/Queries/Targets.antt =====
-- web/src/lib/queries.ts: two mutations never post to one URL unless they act on one resource.
use yafu.Base.{
  ◌==◌, ◌||◌, ℕ, ◌≡◌, refl, sym, ◌∙◌, Bool, false, some, [], ◌∷◌, Text, codes, Lacks, All, arith,
}
use yafu.ApiTypes.{source_kind_text, app_kind_text}
use yafu.Uri.Decode.{IsUtf16}
use yafu.Queries.Mutations.{
  MutationVerb, verb_text, Mutation, on_app, on_image, on_source, on_alert, rollback, mutation_url,
  app_action_url, image_action_url, source_action_url, alert_action_url, rollback_url,
}
use yafu.Queries.Urls.{Target, target_url, target_url-inj}

-- What a mutation is meant to act on.
unfoldable pub target_of : Mutation → Target
target_of (on_app a v) = record {
  resource = codes "applications";
  first = a.cluster_id;
  rest = a.ns ∷ app_kind_text a.kind ∷ a.name ∷ [];
  action = verb_text v;
}
target_of (on_image u v) = record {
  resource = codes "image-updates";
  first = u.cluster_id;
  rest = u.ns ∷ codes "ImagePolicy" ∷ u.name ∷ [];
  action = verb_text v;
}
target_of (on_source s v) = record {
  resource = codes "sources";
  first = s.cluster_id;
  rest = s.ns ∷ source_kind_text s.kind ∷ s.name ∷ [];
  action = verb_text v;
}
target_of (on_alert a v) = record {
  resource = codes "alerts";
  first = a.cluster_id;
  rest = a.ns ∷ codes "Alert" ∷ a.name ∷ [];
  action = verb_text v;
}
target_of (rollback a) = record {
  resource = codes "applications";
  first = a.cluster_id;
  rest = a.ns ∷ app_kind_text a.kind ∷ a.name ∷ [];
  action = codes "rollback";
}

mutation_url-target : (m : Mutation) → mutation_url m ≡ target_url (target_of m)
unfolding mutation_url target_of app_action_url image_action_url source_action_url alert_action_url
    rollback_url
mutation_url-target (on_app a v) = refl
mutation_url-target (on_image u v) = refl
mutation_url-target (on_source s v) = refl
mutation_url-target (on_alert a v) = refl
mutation_url-target (rollback a) = refl

abbrev has_unit : ℕ → Text → Bool
has_unit d [] = false
has_unit d (c ∷ s) = c == d || has_unit d s

Lacks-has_unit : (d : ℕ) (s : Text) → has_unit d s ≡ false → Lacks d s
Lacks-has_unit d [] h = tt
Lacks-has_unit d (c ∷ s) h = (ground arith, Lacks-has_unit d s (ground arith))

no_slash : (s : Text) → has_unit b'/' s ≡ false → Lacks b'/' s
no_slash = Lacks-has_unit b'/'

verb_text-Lacks : (v : MutationVerb) → Lacks b'/' (verb_text v)
verb_text-Lacks MutationVerb.reconcile = no_slash (codes "reconcile") refl
verb_text-Lacks MutationVerb.suspend = no_slash (codes "suspend") refl
verb_text-Lacks MutationVerb.resume = no_slash (codes "resume") refl

target_of-Lacks :
    (m : Mutation) → Lacks b'/' (target_of m).resource × Lacks b'/' (target_of m).action
unfolding target_of
target_of-Lacks (on_app a v) = (no_slash (codes "applications") refl, verb_text-Lacks v)
target_of-Lacks (on_image u v) = (no_slash (codes "image-updates") refl, verb_text-Lacks v)
target_of-Lacks (on_source s v) = (no_slash (codes "sources") refl, verb_text-Lacks v)
target_of-Lacks (on_alert a v) = (no_slash (codes "alerts") refl, verb_text-Lacks v)
target_of-Lacks (rollback a) =
    (no_slash (codes "applications") refl, no_slash (codes "rollback") refl)

-- Where every part of the addresses is a text of 16-bit units, two mutations that post to one URL
-- act on the same resource: of one type, cluster, namespace, kind and name, and with one action.
pub mutation_url-inj :
    (m n : Mutation) (u : Text)
    → All IsUtf16 ((target_of m).first ∷ (target_of m).rest)
    → All IsUtf16 ((target_of n).first ∷ (target_of n).rest)
    → mutation_url m ≡ some u
    → mutation_url n ≡ some u
    → ((target_of m).resource ≡ (target_of n).resource)
      × ((target_of m).first ∷ (target_of m).rest ≡ (target_of n).first ∷ (target_of n).rest)
      × ((target_of m).action ≡ (target_of n).action)
mutation_url-inj m n u hm hn p q =
    let (a, b) = target_of-Lacks m in
    let (c, d) = target_of-Lacks n in
    target_url-inj (target_of m) (target_of n) u (a, b, hm) (c, d, hn)
      (sym (mutation_url-target m) ∙ p) (sym (mutation_url-target n) ∙ q)
