-- ===== src/DepGraph/Clusters.antt =====
-- web/src/lib/depGraph.ts, buildClusterGraphs: the grouping by cluster, and the list of graphs.
use yafu.Base.{
  ◌≡◌, refl, ap, ◌∙◌, Option, none, some, Bool-cases, List, [], ◌∷◌, ◌++◌, append_assoc, append-nil,
  Text, ◌=t◌, =t_eq, keep, inl, inr,
}
use yafu.Base.Entries.{Entries, get, get-put, put-Distinct, Distinct}
use yafu.ApiTypes.{Application, Source}
use yafu.DepGraph.Build.{
  Bucket, seed, with_app, with_source, add_app, add_source, add_apps, add_sources, group,
}

-- A bucket with the applications put behind those that it has.
abbrev pub with_apps : Option Bucket → List Application → Option Bucket
with_apps o [] = o
with_apps o (a ∷ as') = with_apps (some (with_app a (seed a.cluster o))) as'

abbrev pub with_sources : Option Bucket → List Source → Option Bucket
with_sources o [] = o
with_sources o (s ∷ ss) = with_sources (some (with_source s (seed s.cluster o))) ss

abbrev pub apps_in : Text → List Application → List Application
apps_in c = keep (λ a. a.cluster_id =t c)

abbrev pub sources_in : Text → List Source → List Source
sources_in c = keep (λ s. s.cluster_id =t c)

get-add_apps :
    (c : Text) (m : Entries Bucket) (as' : List Application)
    → get c (add_apps m as') ≡ with_apps (get c m) (apps_in c as')
unfolding add_apps add_app
get-add_apps c m [] = refl
get-add_apps c m (a ∷ as') = elim (Bool-cases (a.cluster_id =t c)) [
  | inl e ↦
      get-add_apps c (add_app m a) as'
      ∙ rw (get-put c a.cluster_id (with_app a (seed a.cluster (get a.cluster_id m))) m, e)
          (rw (=t_eq _ _ e))
  | inr e ↦
      get-add_apps c (add_app m a) as'
      ∙ rw (get-put c a.cluster_id (with_app a (seed a.cluster (get a.cluster_id m))) m, e)
]

get-add_sources :
    (c : Text) (m : Entries Bucket) (ss : List Source)
    → get c (add_sources m ss) ≡ with_sources (get c m) (sources_in c ss)
unfolding add_sources add_source
get-add_sources c m [] = refl
get-add_sources c m (s ∷ ss) = elim (Bool-cases (s.cluster_id =t c)) [
  | inl e ↦
      get-add_sources c (add_source m s) ss
      ∙ rw (get-put c s.cluster_id (with_source s (seed s.cluster (get s.cluster_id m))) m, e)
          (rw (=t_eq _ _ e))
  | inr e ↦
      get-add_sources c (add_source m s) ss
      ∙ rw (get-put c s.cluster_id (with_source s (seed s.cluster (get s.cluster_id m))) m, e)
]

with_apps-some :
    (b : Bucket) (as' : List Application)
    → with_apps (some b) as' ≡ some (record b { apps = b.apps ++ as' })
with_apps-some b [] = simp append-nil
with_apps-some b (a ∷ as') = with_apps-some (with_app a b) as' ∙ simp append_assoc

with_sources-some :
    (b : Bucket) (ss : List Source)
    → with_sources (some b) ss ≡ some (record b { sources = b.sources ++ ss })
with_sources-some b [] = simp append-nil
with_sources-some b (s ∷ ss) = with_sources-some (with_source s b) ss ∙ simp append_assoc

-- The bucket of a cluster: named by the first of its applications, or by the first of its sources
-- if it has no application, and holding both in the order of the input.
abbrev pub bucket_of : List Application → List Source → Option Bucket
bucket_of [] [] = none
bucket_of [] (s ∷ ss) = some (record { name = s.cluster; apps = []; sources = s ∷ ss })
bucket_of (a ∷ as') ss = some (record { name = a.cluster; apps = a ∷ as'; sources = ss })

with-bucket_of :
    (as' : List Application) (ss : List Source)
    → with_sources (with_apps none as') ss ≡ bucket_of as' ss
with-bucket_of [] [] = refl
with-bucket_of [] (s ∷ ss) = with_sources-some (with_source s (seed s.cluster none)) ss
with-bucket_of (a ∷ as') ss =
    ap (λ o. with_sources o ss) (with_apps-some (with_app a (seed a.cluster none)) as')
    ∙ with_sources-some (record { name = a.cluster; apps = a ∷ as'; sources = [] }) ss

-- The grouping holds, under each cluster's id, exactly that cluster's applications and sources in
-- the order of the input, under the name of the first of them; and nothing under any other id.
pub get-group :
    (c : Text) (apps : List Application) (sources : List Source)
    → get c (group apps sources) ≡ bucket_of (apps_in c apps) (sources_in c sources)
unfolding group get
get-group c apps sources =
    get-add_sources c (add_apps [] apps) sources
    ∙ ap (λ o. with_sources o (sources_in c sources)) (get-add_apps c [] apps)
    ∙ with-bucket_of (apps_in c apps) (sources_in c sources)

add_apps-Distinct :
    (m : Entries Bucket) (as' : List Application) → Distinct m → Distinct (add_apps m as')
unfolding add_apps add_app
add_apps-Distinct m [] d = d
add_apps-Distinct m (a ∷ as') d = add_apps-Distinct (add_app m a) as' (put-Distinct _ _ m d)

add_sources-Distinct :
    (m : Entries Bucket) (ss : List Source) → Distinct m → Distinct (add_sources m ss)
unfolding add_sources add_source
add_sources-Distinct m [] d = d
add_sources-Distinct m (s ∷ ss) d = add_sources-Distinct (add_source m s) ss (put-Distinct _ _ m d)

pub group-Distinct :
    (apps : List Application) (sources : List Source) → Distinct (group apps sources)
unfolding group
group-Distinct apps sources = add_sources-Distinct _ sources (add_apps-Distinct [] apps tt)
