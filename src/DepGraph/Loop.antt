-- ===== src/DepGraph/Loop.antt =====
-- web/src/lib/depGraph.ts, buildClusterGraphs: what the loop over a cluster's applications leaves
-- in its four variables.
use yafu.Base.{
  ◌≡◌, refl, ◌∙◌, Bool, ◌&&◌, ◌||◌, not, Option, none, some, Option-cases, List, [], ◌∷◌, ◌++◌,
  append_assoc, append-nil, Text, ◌=t◌, has, add, has-add, keep, any, is_some, arith, inl, inr,
}
use yafu.ApiTypes.{Application, Source}
use yafu.DepGraph.{DepEdge, SourceRef, parse_source_ref}
use yafu.DepGraph.Index.{SourceIndex, resolve}
use yafu.DepGraph.Link.{Links, edge, link, link_all}

module _ (ix : SourceIndex) where
  -- The source that an application is linked to.
  abbrev pub target_of : Application → Option SourceRef → Option Source
  target_of a none = none
  target_of a (some ref) = resolve ix a ref

  abbrev pub target : Application → Option Source
  target a = target_of a (parse_source_ref (some a.source))

  abbrev pub is_linked : Application → Bool
  is_linked a = is_some (target a)

  -- The application names a source that is not found.
  abbrev pub is_orphan : Application → Bool
  is_orphan a = is_some (parse_source_ref (some a.source)) && not (is_linked a)

  abbrev edge_to : Application → Option Source → List DepEdge → List DepEdge
  edge_to a none es = es
  edge_to a (some s) es = edge s a ∷ es

  abbrev pub edges_of : List Application → List DepEdge
  edges_of [] = []
  edges_of (a ∷ as') = edge_to a (target a) (edges_of as')

  abbrev pub used_by : List Text → List DepEdge → List Text
  used_by used [] = used
  used_by used (e ∷ es) = used_by (add e.source_id used) es

  -- What the loop leaves when it starts from `st`.
  abbrev pub linked_from : Links → List Application → Links
  linked_from st as' = record {
    edges = st.edges ++ edges_of as';
    orphan_apps = st.orphan_apps ++ keep is_orphan as';
    used_sources = used_by st.used_sources (edges_of as');
    matched_apps = st.matched_apps ++ keep is_linked as';
  }

  link_step :
      (st : Links) (a : Application) (as' : List Application)
      → linked_from (link ix st a) as' ≡ linked_from st (a ∷ as')
  unfolding link
  link_step st a as' = elim (Option-cases (parse_source_ref (some a.source))) [
    | inl e ↦ rw (e, link)
    | inr (ref, e) ↦ elim (Option-cases (resolve ix a ref)) [
      | inl d ↦ rw (e, link, d) (simp append_assoc)
      | inr (s, d) ↦ rw (e, link, d) (simp append_assoc)
    ]
  ]

  -- The loop appends an edge for each linked application, and files the others that name a source
  -- as orphans.
  pub link_all-linked_from :
      (st : Links) (as' : List Application) → link_all ix st as' ≡ linked_from st as'
  unfolding link_all
  link_all-linked_from st [] = simp append-nil
  link_all-linked_from st (a ∷ as') = link_all-linked_from (link ix st a) as' ∙ link_step st a as'

  pub has-used_by :
      (x : Text) (used : List Text) (es : List DepEdge)
      → has x (used_by used es) ≡ (any (λ e. e.source_id =t x) es || has x used)
  has-used_by x used [] = refl
  has-used_by x used (e ∷ es) =
      ground (arith, has-used_by x (add e.source_id used) es, has-add x e.source_id used)
