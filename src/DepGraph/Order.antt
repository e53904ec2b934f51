-- ===== src/DepGraph/Order.antt =====
-- web/src/lib/depGraph.ts, buildClusterGraphs: what of a graph depends on the order in which the API
-- lists the applications.
use mathlib.Core.List.{Perm, filter_map}
use mathlib.Core.List.Perm
use mathlib.Core.Option
use mathlib.Core.Path.{fun_ext}
use mathlib.Core.Quot
use mathlib.Core.Quot.{Quot}
use yafu.Base.{
  not, In, ◌≡◌, refl, sym, ap, ◌∙◌, Bool, true, false, Bool-cases, Option, none, some, Option-cases,
  List, [], ◌∷◌, Text, ◌=t◌, keep, any, inl, inr, arith, if◌then◌else◌,
}
use yafu.Base.Sort.{sort-perm, sort}
use yafu.ApiTypes.{Application, Source}
use yafu.DepGraph.Made.{MadeOf-graph, graph-MadeOf, bucket_apps}
use yafu.DepGraph.Columns.{cluster_graph_lem, is_used, index_of_bucket}
use yafu.DepGraph.Clusters.{sources_in, apps_in, bucket_of}
use yafu.DepGraph.Build.{by_source, build_cluster_graphs, by_app, cluster_graph, Bucket}
use yafu.DepGraph.{LocaleCompare, ClusterDepGraph, DepEdge}
use yafu.DepGraph.Index.{SourceIndex}
use yafu.DepGraph.Loop.{is_orphan, is_linked, edges_of, target}
use yafu.DepGraph.Link.{edge}

-- A list of which the order is forgotten.
abbrev pub Bag : Type 0 → Type 0
Bag A = Quot (Perm {A = A})

-- What a graph shows, without the order of its applications and edges, and without the name of the
-- cluster, which is the one that its first application has.
pub record Drawing : Type 0 where
  pub cluster_id : Text
  pub sources : List Source
  pub apps : Bag Application
  pub edges : Bag DepEdge
  pub orphan_apps : Bag Application
  pub unused_sources : List Source

abbrev pub drawing : ClusterDepGraph → Drawing
drawing g = record {
  cluster_id = g.cluster_id;
  sources = g.sources;
  apps = Quot.mk g.apps;
  edges = Quot.mk g.edges;
  orphan_apps = Quot.mk g.orphan_apps;
  unused_sources = g.unused_sources;
}

module _ {A : Type 0} (p : A → Bool) where
  if_kept : A → Option A
  if_kept x = if p x then some x else none

  keep-filter_map : (xs : List A) → filter_map if_kept xs ≡ keep p xs
  unfolding filter_map if_kept
  keep-filter_map [] = refl
  keep-filter_map (x ∷ xs) = elim (Bool-cases (p x)) [
    | inl e ↦ rw e (ap (λ l. x ∷ l) (keep-filter_map xs))
    | inr e ↦ rw e (keep-filter_map xs)
  ]

  keep-reordered : {xs ys : List A} → Perm xs ys → Perm (keep p xs) (keep p ys)
  keep-reordered {xs} {ys} h =
      rw (← keep-filter_map xs, ← keep-filter_map ys) (Perm.filter_map if_kept h)

module _ {A : Type 0} where
  is_filled : List A → Bool
  is_filled [] = false
  is_filled (x ∷ xs) = true

  is_filled-reordered : (xs ys : List A) → Perm xs ys → is_filled xs ≡ is_filled ys
  unfolding is_filled
  is_filled-reordered [] [] h = refl
  is_filled-reordered [] (y ∷ ys) h = let e = Perm.nil-eq h in cc
  is_filled-reordered (x ∷ xs) [] h = let e = Perm.eq-nil h in cc
  is_filled-reordered (x ∷ xs) (y ∷ ys) h = refl

module _ {A : Type 0} (p : A → Bool) where
  is_filled-keep : (xs : List A) → is_filled (keep p xs) ≡ any p xs
  unfolding is_filled
  is_filled-keep [] = refl
  is_filled-keep (x ∷ xs) = ground (arith, is_filled-keep xs)

  any-reordered : (xs ys : List A) → Perm xs ys → any p xs ≡ any p ys
  any-reordered xs ys h =
      sym (is_filled-keep xs)
      ∙ is_filled-reordered (keep p xs) (keep p ys) (keep-reordered p h)
      ∙ is_filled-keep ys

module _ (ix : SourceIndex) where
  edge_of : Application → Option DepEdge
  edge_of a = Option.map (λ s. edge s a) (target ix a)

  edges-filter_map : (as' : List Application) → filter_map edge_of as' ≡ edges_of ix as'
  unfolding filter_map edge_of
  edges-filter_map [] = refl
  edges-filter_map (a ∷ as') = elim (Option-cases (target ix a)) [
    | inl e ↦ rw e (edges-filter_map as')
    | inr (s, e) ↦ rw e (ap (λ l. edge s a ∷ l) (edges-filter_map as'))
  ]

  edges-reordered : {xs ys : List Application} → Perm xs ys → Perm (edges_of ix xs) (edges_of ix ys)
  edges-reordered {xs} {ys} h =
      rw (← edges-filter_map xs, ← edges-filter_map ys) (Perm.filter_map edge_of h)

module _ (lc : LocaleCompare) (c : Text) (ss : List Source) where
  abbrev bucket_with : Text → List Application → Bucket
  bucket_with name as' = record { name = name; apps = as'; sources = ss }

  column-reordered :
      (p : Application → Bool) (xs ys : List Application)
      → Perm xs ys
      → Perm (sort (by_app lc) (keep p xs)) (sort (by_app lc) (keep p ys))
  column-reordered p xs ys h =
      Perm.trans (sort-perm (by_app lc) (keep p xs))
        (Perm.trans (keep-reordered p h) (Perm.symm (sort-perm (by_app lc) (keep p ys))))

  cluster_graph-reordered :
      (n m : Text) (xs ys : List Application)
      → Perm xs ys
      → drawing (cluster_graph lc (c, bucket_with n xs))
        ≡ drawing (cluster_graph lc (c, bucket_with m ys))
  cluster_graph-reordered n m xs ys h =
      let ix = index_of_bucket (bucket_with n xs) in
      let edges = edges-reordered ix h in
      let used : is_used (edges_of ix xs) ≡ is_used (edges_of ix ys) =
        fun_ext λ s. any-reordered (λ e. e.source_id =t s.id) _ _ edges in
      ap drawing (cluster_graph_lem lc c (bucket_with n xs))
      ∙ (λ i. record {
        cluster_id = c;
        sources = sort (by_source lc) (keep (used i) ss);
        apps = Quot.sound (column-reordered (is_linked ix) xs ys h) i;
        edges = Quot.sound edges i;
        orphan_apps = Quot.sound (column-reordered (is_orphan ix) xs ys h) i;
        unused_sources = sort (by_source lc) (keep (λ s. not (used i s)) ss);
      })
      ∙ ap drawing (sym (cluster_graph_lem lc c (bucket_with m ys)))

named_bucket :
    (as' : List Application) (ss : List Source) (b : Bucket)
    → bucket_of as' ss ≡ some b
    → b ≡ record { name = b.name; apps = as'; sources = ss }
named_bucket as' ss b e =
    let (same_apps, same_sources) = bucket_apps as' ss b e in
    λ i. record { name = b.name; apps = same_apps i; sources = same_sources i }

bucket_of-reordered :
    (xs ys : List Application) (ss : List Source) (b : Bucket)
    → Perm xs ys
    → bucket_of xs ss ≡ some b
    → (d : Bucket) × (bucket_of ys ss ≡ some d)
bucket_of-reordered [] [] ss b h e = (b, e)
bucket_of-reordered (x ∷ xs) [] ss b h e = let nil = Perm.eq-nil h in cc
bucket_of-reordered xs (y ∷ ys) ss b h e = (_, refl)

-- The order in which the API lists the applications does not matter: for each graph of a list of
-- applications there is a graph of each reordering of the list that shows the same sources in the
-- same order, and the same applications, edges and orphans, these in an order that may differ.
pub graphs-reordered :
    (lc : LocaleCompare) (xs ys : List Application) (sources : List Source)
    → Perm xs ys
    → (g : ClusterDepGraph) → In g (build_cluster_graphs lc xs sources)
    → (h : ClusterDepGraph) × In h (build_cluster_graphs lc ys sources) × (drawing g ≡ drawing h)
graphs-reordered lc xs ys sources r g k =
    let m = graph-MadeOf lc xs sources g k in
    let here = keep-reordered (λ a. a.cluster_id =t m.id) r in
    let (b, found) =
      bucket_of-reordered (apps_in m.id xs) (apps_in m.id ys) (sources_in m.id sources) m.bucket
        here m.found in
    (
      cluster_graph lc (m.id, b),
      MadeOf-graph lc ys sources m.id b found,
      ap drawing (m.made ∙ ap (λ x. cluster_graph lc (m.id, x)) (named_bucket _ _ m.bucket m.found))
          ∙ cluster_graph-reordered lc m.id (sources_in m.id sources) m.bucket.name b.name
              (apps_in m.id xs) (apps_in m.id ys) here
          ∙ ap (λ x. drawing (cluster_graph lc (m.id, x))) (sym (named_bucket _ _ b found)),
    )
