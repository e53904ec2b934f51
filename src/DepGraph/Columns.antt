-- ===== src/DepGraph/Columns.antt =====
-- web/src/lib/depGraph.ts, buildClusterGraphs: the graph of one cluster.
use mathlib.Core.Bool.{or-false}
use mathlib.Core.List.{Perm}
use mathlib.Core.List.Perm
use mathlib.Core.Path.{fun_ext}
use yafu.Base.{
  ◌⊎◌, true, All, ◌∷◌, ℕ, ◌<◌, is_some, ◌≡◌, refl, ap, ◌∙◌, Bool, ◌&&◌, not, Option, none, some,
  List, [], ◌++◌, Text, ◌=t◌, has, keep, any, keep-keep, arith,
}
use yafu.Base.Sort.{before, sort, IsConsistent, sort-perm, keep-perm}
use yafu.ApiTypes.{Application, Source, Status}
use yafu.DepGraph.{DepEdge, LocaleCompare, severity_name_sort, parse_source_ref, SourceRef}
use yafu.DepGraph.Index.{SourceIndex, empty_index, index_from}
use yafu.DepGraph.Link.{no_links, link_all}
use yafu.DepGraph.Loop.{
  is_linked, is_orphan, edges_of, target_of, linked_from, link_all-linked_from, has-used_by,
}
use yafu.DepGraph.Build.{Bucket, by_app, by_source, cluster_graph}

-- The order of the columns is a total preorder where the host's comparison of names is one.
pub severity_name_sort-IsConsistent :
    (lc : LocaleCompare) {T : Type 0} (status : T → Status) (name : T → Text)
    → IsConsistent lc
    → IsConsistent (severity_name_sort lc status name)
unfolding severity_name_sort
severity_name_sort-IsConsistent lc status name c = record {
  total = λ a b h. ground (arith, c.total (name a) (name b));
  trans = λ a b d h k. ground (arith, c.trans (name a) (name b) (name d));
}

-- An edge of the list starts at the source.
abbrev pub is_used : List DepEdge → Source → Bool
is_used es s = any (λ e. e.source_id =t s.id) es

abbrev pub index_of_bucket : Bucket → SourceIndex
index_of_bucket b = index_from empty_index b.sources

abbrev pub bucket_edges : Bucket → List DepEdge
bucket_edges b = edges_of (index_of_bucket b) b.apps

bucket_links :
    (b : Bucket)
    → link_all (index_of_bucket b) no_links b.apps ≡ linked_from (index_of_bucket b) no_links b.apps
bucket_links b = link_all-linked_from (index_of_bucket b) no_links b.apps

bucket_used :
    (b : Bucket)
    → (λ (s : Source). has s.id (link_all (index_of_bucket b) no_links b.apps).used_sources)
      ≡ is_used (bucket_edges b)
bucket_used b = fun_ext λ s.
    ap (λ l. has s.id l.used_sources) (bucket_links b)
    ∙ has-used_by (index_of_bucket b) s.id [] (bucket_edges b)
    ∙ or-false (is_used (bucket_edges b) s)

module _ (lc : LocaleCompare) where
  -- The columns, without the loop.
  pub cluster_graph_lem :
      (c : Text) (b : Bucket)
      → cluster_graph lc (c, b) ≡ record {
        cluster_id = c;
        cluster_name = b.name;
        sources = sort (by_source lc) (keep (is_used (bucket_edges b)) b.sources);
        apps = sort (by_app lc) (keep (is_linked (index_of_bucket b)) b.apps);
        edges = bucket_edges b;
        orphan_apps = sort (by_app lc) (keep (is_orphan (index_of_bucket b)) b.apps);
        unused_sources =
            sort (by_source lc) (keep (λ s. not (is_used (bucket_edges b) s)) b.sources);
      }
  unfolding cluster_graph
  cluster_graph_lem c b = λ i. record {
    cluster_id = c;
    cluster_name = b.name;
    sources = sort (by_source lc) (keep (bucket_used b i) b.sources);
    apps = sort (by_app lc) (bucket_links b i).matched_apps;
    edges = (bucket_links b i).edges;
    orphan_apps = sort (by_app lc) (bucket_links b i).orphan_apps;
    unused_sources = sort (by_source lc) (keep (λ s. not (bucket_used b i s)) b.sources);
  }

-- An application that names no source.
abbrev pub no_ref : Application → Bool
no_ref a = not (is_some (parse_source_ref (some a.source)))

orphan_test :
    (ix : SourceIndex) (a : Application) → (not (is_linked ix a) && not (no_ref a)) ≡ is_orphan ix a
orphan_test ix a = ground arith

dropped_test :
    (ix : SourceIndex) (a : Application) (o : Option SourceRef)
    → (not (is_some (target_of ix a o)) && not (not (not (is_some o)))) ≡ not (is_some o)
dropped_test ix a none = refl
dropped_test ix a (some ref) = ground arith

three_parts-perm :
    (ix : SourceIndex) (as' : List Application)
    → Perm (keep (is_linked ix) as' ++ (keep (is_orphan ix) as' ++ keep no_ref as')) as'
three_parts-perm ix as' =
    let unlinked = λ (a : Application). not (is_linked ix a) in
    let named = λ (a : Application). not (no_ref a) in
    let orphans : keep named (keep unlinked as') ≡ keep (is_orphan ix) as' =
      keep-keep named unlinked as' ∙ ap (λ p. keep p as') (fun_ext (orphan_test ix)) in
    let dropped : keep (λ a. not (named a)) (keep unlinked as') ≡ keep no_ref as' =
      keep-keep (λ a. not (named a)) unlinked as'
      ∙ ap (λ p. keep p as') (fun_ext λ a. dropped_test ix a (parse_source_ref (some a.source))) in
    Perm.trans
      (Perm.append (Perm.refl (keep (is_linked ix) as'))
        (rw (← orphans, ← dropped) (keep-perm named (keep unlinked as'))))
      (keep-perm (is_linked ix) as')

-- Every application of the cluster is in one of three places and in it as often: the linked ones,
-- the orphans, or those that name no source, which the graph drops.
pub apps-perm :
    (lc : LocaleCompare) (c : Text) (b : Bucket)
    → let g = cluster_graph lc (c, b) in
      Perm (g.apps ++ (g.orphan_apps ++ keep no_ref b.apps)) b.apps
apps-perm lc c b = rw (cluster_graph_lem lc c b) (
    Perm.trans
      (Perm.append (sort-perm (by_app lc) _)
        (Perm.append (sort-perm (by_app lc) _) (Perm.refl (keep no_ref b.apps))))
      (three_parts-perm (index_of_bucket b) b.apps))

-- Every source of the cluster is listed once, among those with an edge or among the unused ones.
pub sources-perm :
    (lc : LocaleCompare) (c : Text) (b : Bucket)
    → let g = cluster_graph lc (c, b) in Perm (g.sources ++ g.unused_sources) b.sources
sources-perm lc c b = rw (cluster_graph_lem lc c b) (
    Perm.trans (Perm.append (sort-perm (by_source lc) _) (sort-perm (by_source lc) _))
      (keep-perm (is_used (bucket_edges b)) b.sources))

-- How much a status asks of the operator, apart from the comparator.
abbrev pub urgency : Status → ℕ
urgency Status.failing = 3
urgency Status.degraded = 2
urgency Status.progressing = 1
urgency Status.healthy = 0
urgency Status.paused = 0

module _ (lc : LocaleCompare) {T : Type 0} (status : T → Status) (name : T → Text) where
  -- `x` is more urgent than `y`, or they are as urgent and the name of `x` may come first.
  abbrev pub Precedes : T → T → Type 0
  Precedes x y =
      (urgency (status y) < urgency (status x))
      ⊎ ((urgency (status x) ≡ urgency (status y)) × (before lc (name x) (name y) ≡ true))

  -- Every entry precedes all that follow it.
  abbrev pub IsOrdered : List T → Type 0
  IsOrdered [] = Unit {0}
  IsOrdered (x ∷ xs) = All (Precedes x) xs × IsOrdered xs
