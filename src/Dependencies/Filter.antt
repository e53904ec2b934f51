-- ===== src/Dependencies/Filter.antt =====
-- web/src/pages/Dependencies.tsx, filterGraph: what the filters leave.
use yafu.Base.{
  ◌⊎◌, ◌≡◌, refl, sym, ◌∙◌, Bool, true, ◌&&◌, Bool-cases, Option, none, some, List, [], ◌∷◌, map,
  Text, ◌=t◌, =t_eq, =t_refl, has, keep, In, In-keep, keep-In, In-map, map-In, arith, inl, inr,
}
use yafu.Base.Entries.{Entries, get, put, get-put}
use yafu.ApiTypes.{Application, Source}
use yafu.DepGraph.{ClusterDepGraph, DepEdge}
use yafu.Dependencies.{
  StatusFilter, index_sources, index_apps, want_edge, want_status, survives, filter_graph,
}

has-In : (s : Text) (ts : List Text) → has s ts ≡ true → In s ts
has-In s [] h = cc
has-In s (t ∷ ts) h = elim (Bool-cases (t =t s)) [
  | inl e ↦ inl (=t_eq t s e)
  | inr e ↦ inr (has-In s ts (rw e at h))
]

In-has : (s : Text) (ts : List Text) → In s ts → has s ts ≡ true
In-has s [] h = elim h [ ]
In-has s (t ∷ ts) (inl e) = rw (e, =t_refl s) refl
In-has s (t ∷ ts) (inr h) = ground (arith, In-has s ts h)

-- What the lookup by id finds is of the list and has the id.
index_sources-In :
    (id : Text) (s : Source) (ss : List Source) (m : Entries Source)
    → get id (index_sources ss m) ≡ some s
    → (In s ss × (s.id ≡ id)) ⊎ (get id m ≡ some s)
unfolding index_sources
index_sources-In id s [] m h = inr h
index_sources-In id s (x ∷ ss) m h = elim (index_sources-In id s ss (put x.id x m) h) [
  | inl (i, e) ↦ inl (inr i, e)
  | inr e ↦ elim (Bool-cases (x.id =t id)) [
    | inl t ↦
        let same : some x ≡ some s = rw t at (sym (get-put id x.id x m) ∙ e) in
        let y : x ≡ s = cc in inl (inl y, rw (← y) (=t_eq x.id id t))
    | inr t ↦ inr (rw t at (sym (get-put id x.id x m) ∙ e))
  ]
]

index_apps-In :
    (id : Text) (a : Application) (as' : List Application) (m : Entries Application)
    → get id (index_apps as' m) ≡ some a
    → (In a as' × (a.id ≡ id)) ⊎ (get id m ≡ some a)
unfolding index_apps
index_apps-In id a [] m h = inr h
index_apps-In id a (x ∷ as') m h = elim (index_apps-In id a as' (put x.id x m) h) [
  | inl (i, e) ↦ inl (inr i, e)
  | inr e ↦ elim (Bool-cases (x.id =t id)) [
    | inl t ↦
        let same : some x ≡ some a = rw t at (sym (get-put id x.id x m) ∙ e) in
        let y : x ≡ a = cc in inl (inl y, rw (← y) (=t_eq x.id id t))
    | inr t ↦ inr (rw t at (sym (get-put id x.id x m) ∙ e))
  ]
]

both : (a b : Bool) → (a && b) ≡ true → (a ≡ true) × (b ≡ true)
both a b h = ground arith

found_source :
    (id : Text) (s : Source) (ss : List Source)
    → get id (index_sources ss []) ≡ some s
    → In s ss × (s.id ≡ id)
unfolding get
found_source id s ss h = elim (index_sources-In id s ss [] h) [
  | inl i ↦ i
  | inr e ↦ absurd (missing e)
]
  where
    missing : none ≡ some s → ⊥
    missing e = cc

found_app :
    (id : Text) (a : Application) (as' : List Application)
    → get id (index_apps as' []) ≡ some a
    → In a as' × (a.id ≡ id)
unfolding get
found_app id a as' h = elim (index_apps-In id a as' [] h) [ inl i ↦ i | inr e ↦ absurd (missing e) ]
  where
    missing : none ≡ some a → ⊥
    missing e = cc

-- The two ends of an edge are listed, and both have a status that is wanted.
pub record Ends (f : StatusFilter) (g : ClusterDepGraph) (e : DepEdge) : Type 0 where
  pub source : Source
  pub source_listed : In source g.sources
  pub source_end : source.id ≡ e.source_id
  pub source_wanted : want_status f source.status source.suspended ≡ true
  pub app : Application
  pub app_listed : In app g.apps
  pub app_end : app.id ≡ e.app_id
  pub app_wanted : want_status f app.status app.suspended ≡ true

module _ (trim lower : Text → Text) (g : ClusterDepGraph) (f : StatusFilter) where
  survives-Ends : (q : Text) (e : DepEdge) → survives trim lower g f q e ≡ true → Ends f g e
  unfolding survives
  survives-Ends q e h =
      ends (get e.source_id (index_sources g.sources [])) (get e.app_id (index_apps g.apps [])) refl
        refl h
    where
      ends :
          (so : Option Source) (ao : Option Application)
          → get e.source_id (index_sources g.sources []) ≡ so
          → get e.app_id (index_apps g.apps []) ≡ ao
          → want_edge trim lower f q so ao ≡ true
          → Ends f g e
      ends none ao p r k = cc
      ends (some s) none p r k = cc
      ends (some s) (some a) p r k =
          let (i, m) = found_source e.source_id s g.sources p in
          let (j, n) = found_app e.app_id a g.apps r in
          let (w, rest) = both (want_status f s.status s.suspended) _ k in
          let (v, _) = both (want_status f a.status a.suspended) _ rest in
          record {
            source = s;
            source_listed = i;
            source_end = m;
            source_wanted = w;
            app = a;
            app_listed = j;
            app_end = n;
            app_wanted = v;
          }

  abbrev kept : Text → List DepEdge
  kept search = keep (survives trim lower g f (lower (trim search))) g.edges

  -- Nothing dangles after filtering: each edge that is left is one of the graph's, and its source
  -- and its application are still listed, both with a wanted status; and each source and each
  -- application that is left is one of the graph's and is an end of an edge that is left.
  pub filter_graph-Ends :
      (search : Text)
      → let h = filter_graph trim lower g f search in
        ((e : DepEdge) → In e h.edges → In e g.edges × Ends f h e)
        × ((s : Source)
            → In s h.sources
            → In s g.sources × ((e : DepEdge) × In e h.edges × (e.source_id ≡ s.id)))
        × ((a : Application)
            → In a h.apps
            → In a g.apps × ((e : DepEdge) × In e h.edges × (e.app_id ≡ a.id)))
  unfolding filter_graph
  filter_graph-Ends search = (edges_left, sources_left, apps_left)
    where
      edges_left :
          (e : DepEdge)
          → In e (kept search)
          → In e g.edges × Ends f (filter_graph trim lower g f search) e
      edges_left e i =
          let (j, t) = In-keep _ e g.edges i in
          let ends = survives-Ends (lower (trim search)) e t in
          (
            j,
            record {
              source = ends.source;
              source_listed = keep-In _ ends.source g.sources ends.source_listed (
                  In-has ends.source.id (map (λ x. x.source_id) (kept search))
                    (rw ends.source_end (In-map (λ x. x.source_id) e (kept search) i)));
              source_end = ends.source_end;
              source_wanted = ends.source_wanted;
              app = ends.app;
              app_listed = keep-In _ ends.app g.apps ends.app_listed (
                  In-has ends.app.id (map (λ x. x.app_id) (kept search))
                    (rw ends.app_end (In-map (λ x. x.app_id) e (kept search) i)));
              app_end = ends.app_end;
              app_wanted = ends.app_wanted;
            },
          )

      sources_left :
          (s : Source)
          → In s (filter_graph trim lower g f search).sources
          → In s g.sources × ((e : DepEdge) × In e (kept search) × (e.source_id ≡ s.id))
      sources_left s i =
          let (j, t) = In-keep _ s g.sources i in
          (
            j,
            map-In (λ x. x.source_id) s.id (kept search)
                (has-In s.id (map (λ x. x.source_id) (kept search)) t),
          )

      apps_left :
          (a : Application)
          → In a (filter_graph trim lower g f search).apps
          → In a g.apps × ((e : DepEdge) × In e (kept search) × (e.app_id ≡ a.id))
      apps_left a i =
          let (j, t) = In-keep _ a g.apps i in
          (
            j,
            map-In (λ x. x.app_id) a.id (kept search)
                (has-In a.id (map (λ x. x.app_id) (kept search)) t),
          )
