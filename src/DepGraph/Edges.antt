-- ===== src/DepGraph/Edges.antt =====
-- web/src/lib/depGraph.ts, buildClusterGraphs: what the edges of one cluster's graph join.
use yafu.Base.{
  ◌≡◌, refl, sym, ◌∙◌, Bool, true, false, not, Option, none, some, Option-cases, List, [], ◌∷◌,
  Text, ◌=t◌, =t_refl, keep, any, In, In-keep, keep-In, In-any, All, All-In, Lacks, arith, length,
  inl, inr, ◌⊎◌, ◌↔◌,
}
use yafu.Base.Sort.{Comparator, sort, sort-In, In-sort, length-sort}
use yafu.ApiTypes.{Application, Source}
use yafu.DepGraph.{DepEdge, ClusterDepGraph, LocaleCompare, parse_source_ref, SourceRef}
use yafu.DepGraph.Index.{SourceIndex, resolve}
use yafu.DepGraph.Link.{edge}
use yafu.DepGraph.Loop.{is_linked, edges_of, target, target_of}
use yafu.DepGraph.Keys.{print-parse_source_ref}
use yafu.DepGraph.Matching.{SlashFree}
use yafu.DepGraph.Resolves.{resolve_sound}
use yafu.DepGraph.Build.{Bucket, by_app, by_source, cluster_graph}
use yafu.DepGraph.Columns.{cluster_graph_lem, is_used, bucket_edges, index_of_bucket}

module _ (ix : SourceIndex) where
  -- The application and the source that the loop made the edge for.
  abbrev MadeFor : DepEdge → List Application → Type 0
  MadeFor e as' =
      (a : Application) × (s : Source) × In a as' × (target ix a ≡ some s) × (e ≡ edge s a)

  MadeFor-cons :
      {e : DepEdge} (b : Application) (as' : List Application) → MadeFor e as' → MadeFor e (b ∷ as')
  MadeFor-cons b as' (a, s, i, t, q) = (a, s, inr i, t, q)

  MadeFor-head :
      {e : DepEdge} (b : Application) (s : Source) (as' : List Application)
      → target ix b ≡ some s
      → (In e (edges_of ix as') → MadeFor e as')
      → (edge s b ≡ e) ⊎ In e (edges_of ix as')
      → MadeFor e (b ∷ as')
  MadeFor-head b s as' d ih (inl q) = (b, s, inl refl, d, sym q)
  MadeFor-head b s as' d ih (inr i) = MadeFor-cons b as' (ih i)

  In-edges_of : (e : DepEdge) (as' : List Application) → In e (edges_of ix as') → MadeFor e as'
  In-edges_of e [] k = elim k [ ]
  In-edges_of e (a ∷ as') k = elim (Option-cases (target ix a)) [
    | inl d ↦ MadeFor-cons a as' (In-edges_of e as' (rw d at k))
    | inr (s, d) ↦ MadeFor-head a s as' d (In-edges_of e as') (rw d at k)
  ]

  length-edges_of :
      (as' : List Application) → length (edges_of ix as') ≡ length (keep (is_linked ix) as')
  length-edges_of [] = refl
  length-edges_of (a ∷ as') = elim (Option-cases (target ix a)) [
    | inl d ↦ rw d (length-edges_of as')
    | inr (s, d) ↦ rw d (omega (arith, length-edges_of as'))
  ]

  target_of-some :
      (a : Application) (s : Source) (o : Option SourceRef)
      → target_of ix a o ≡ some s
      → (ref : SourceRef) × (o ≡ some ref) × (resolve ix a ref ≡ some s)
  target_of-some a s none h = cc
  target_of-some a s (some ref) h = (ref, refl, h)

-- There is one edge for each linked application.
pub length-edges :
    (lc : LocaleCompare) (c : Text) (b : Bucket)
    → length (cluster_graph lc (c, b)).edges ≡ length (cluster_graph lc (c, b)).apps
length-edges lc c b =
    rw (cluster_graph_lem lc c b)
      (length-edges_of (index_of_bucket b) b.apps ∙ sym (length-sort (by_app lc) _))

-- The two ends of an edge, found in the columns of the graph.
pub record Joins (g : ClusterDepGraph) (e : DepEdge) : Type 0 where
  pub source : Source
  pub app : Application
  pub ref : SourceRef
  pub source_listed : In source g.sources
  pub app_listed : In app g.apps
  pub is_edge : e ≡ edge source app
  pub parsed : parse_source_ref (some app.source) ≡ some ref
  pub same_ns : source.ns ≡ app.ns
  pub same_name : source.name ≡ ref.name

-- Where no namespace holds a slash, every edge joins a listed source to a listed application, they
-- are of one namespace, and the source has the name in the application's reference.
pub edges-Joins :
    (lc : LocaleCompare) (c : Text) (b : Bucket)
    → SlashFree b.sources
    → All (λ (a : Application). Lacks b'/' a.ns) b.apps
    → (e : DepEdge) → In e (cluster_graph lc (c, b)).edges
    → Joins (cluster_graph lc (c, b)) e
edges-Joins lc c b free ns_free e k =
    let made : In e (bucket_edges b) = rw (cluster_graph_lem lc c b) at k in
    let (a, s, i, t, q) = In-edges_of (index_of_bucket b) e b.apps made in
    let (ref, p, r) = target_of-some (index_of_bucket b) a s (parse_source_ref (some a.source)) t in
    let (found, ns, name) =
      resolve_sound b.sources a free (All-In _ b.apps a ns_free i) ref s
        (print-parse_source_ref a.source ref p).1 r in
    record {
      source = s;
      app = a;
      ref = ref;
      source_listed = rw (cluster_graph_lem lc c b) (
          In-sort (by_source lc) s _ (
            keep-In (is_used (bucket_edges b)) s b.sources found
              (In-any _ e (bucket_edges b) made (rw q (=t_refl s.id)))));
      app_listed =
          rw (cluster_graph_lem lc c b)
            (In-sort (by_app lc) a _ (keep-In (is_linked (index_of_bucket b)) a b.apps i (rw t)));
      is_edge = q;
      parsed = p;
      same_ns = ns;
      same_name = name;
    }

In-column_iff :
    {A : Type 0} (cmp : Comparator A) (p : A → Bool) (a : A) (xs : List A)
    → In a (sort cmp (keep p xs)) ↔ (In a xs × (p a ≡ true))
In-column_iff cmp p a xs = (
  λ k. In-keep p a xs (sort-In cmp a (keep p xs) k),
  λ h. In-sort cmp a (keep p xs) (keep-In p a xs h.0 h.1),
)

not-true : (b : Bool) → not b ≡ true → b ≡ false
not-true b h = ground arith

-- A source is listed as used exactly when it is one of the cluster's and an edge has its id.
pub In-sources_iff :
    (lc : LocaleCompare) (c : Text) (b : Bucket) (s : Source)
    → let g = cluster_graph lc (c, b) in
      (In s g.sources ↔ (In s b.sources × (any (λ e. e.source_id =t s.id) g.edges ≡ true)))
      × (In s g.unused_sources
          ↔ (In s b.sources × (any (λ e. e.source_id =t s.id) g.edges ≡ false)))
In-sources_iff lc c b s =
    rw (cluster_graph_lem lc c b)
      (In-column_iff (by_source lc) (is_used (bucket_edges b)) s b.sources, unused)
  where
    unused :
        In s (sort (by_source lc) (keep (λ x. not (is_used (bucket_edges b) x)) b.sources))
        ↔ (In s b.sources × (is_used (bucket_edges b) s ≡ false))
    unused =
        let (f, g) =
          In-column_iff (by_source lc) (λ x. not (is_used (bucket_edges b) x)) s b.sources in
        (λ k. ((f k).0, not-true _ (f k).1), λ h. g (h.0, rw h.1))
