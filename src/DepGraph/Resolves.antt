-- ===== src/DepGraph/Resolves.antt =====
-- web/src/lib/depGraph.ts: what a resolved reference says of the source that it found.
use yafu.Base.{
  ◌≡◌, refl, sym, ◌∙◌, ◌≢◌, ◌⊎◌, inl, inr, true, Option, none, some, List, [], ◌∷◌, Text, ◌=t◌,
  =t_eq, =t_refl, keep, In, In-keep, keep-In, Lacks, Bool-cases, arith,
}
use yafu.ApiTypes.{Application, Source, source_kind_text}
use yafu.DepGraph.{SourceRef}
use yafu.DepGraph.Index.{empty_index, index_from, or_try, resolve}
use yafu.DepGraph.Keys.{IsPrintableKind}
use yafu.DepGraph.Resolution.{last_or}
use yafu.DepGraph.Matching.{at_place, of_kind, only, resolve_plain, SlashFree, resolve-plain}

last_or-In :
    (s : Source) (o : Option Source) (xs : List Source)
    → last_or o xs ≡ some s
    → (o ≡ some s) ⊎ In s xs
last_or-In s o [] h = inl h
last_or-In s o (x ∷ xs) h = elim (last_or-In s (some x) xs h) [
  | inl e ↦ inr (inl (cc))
  | inr k ↦ inr (inr k)
]

last_none-In : (s : Source) (xs : List Source) → last_or none xs ≡ some s → In s xs
last_none-In s xs h = elim (last_or-In s none xs h) [ inl e ↦ cc | inr k ↦ k ]

In-last_or :
    (x : Source) (o : Option Source) (xs : List Source)
    → In x xs
    → (s : Source) × (last_or o xs ≡ some s) × In s xs
In-last_or x o [] k = elim k [ ]
In-last_or x o (y ∷ []) k = (y, refl, inl refl)
In-last_or x o (y ∷ z ∷ zs) k =
    let (s, e, i) = In-last_or z (some y) (z ∷ zs) (inl refl) in (s, e, inr i)

only-In : (s : Source) (xs : List Source) → only xs ≡ some s → In s xs
only-In s [] h = cc
only-In s (x ∷ []) h = inl (cc)
only-In s (x ∷ y ∷ ys) h = cc

or_try-cases :
    (o p : Option Source) (s : Source) → or_try o p ≡ some s → (o ≡ some s) ⊎ (p ≡ some s)
or_try-cases none p s h = inr h
or_try-cases (some t) p s h = inl h

-- The place of a source, read off the test.
at_place_parts :
    (a : Application) (name : Text) (s : Source)
    → at_place a name s ≡ true
    → (s.ns ≡ a.ns) × (s.name ≡ name)
at_place_parts a name s h = (=t_eq _ _ (ground arith), =t_eq _ _ (ground arith))

module _ (ss : List Source) (a : Application) (free : SlashFree ss)
    (ns_free : Lacks b'/' a.ns) where
  plain_sound :
      (ref : SourceRef) (s : Source)
      → resolve_plain ss a ref ≡ some s
      → In s ss × (s.ns ≡ a.ns) × (s.name ≡ ref.name)
  plain_sound ref s h = elim (or_try-cases _ _ s h) [
    | inl e ↦ placed (In-keep _ s _ (last_none-In s _ e)).0
    | inr e ↦ placed (only-In s _ e)
  ]
    where
      placed : In s (keep (at_place a ref.name) ss) → In s ss × (s.ns ≡ a.ns) × (s.name ≡ ref.name)
      placed k =
          let (i, p) = In-keep _ s ss k in let (u, v) = at_place_parts a ref.name s p in (i, u, v)

  -- A reference resolves to a source of the list, in the application's own namespace and of the
  -- name that the reference gives.
  pub resolve_sound :
      (ref : SourceRef) (s : Source)
      → IsPrintableKind ref.kind
      → resolve (index_from empty_index ss) a ref ≡ some s
      → In s ss × (s.ns ≡ a.ns) × (s.name ≡ ref.name)
  resolve_sound ref s h e = plain_sound ref s (sym (resolve-plain ss a free ns_free ref h) ∙ e)

  -- Where no namespace holds a slash, nor the kind, and the list has a source of the reference's
  -- namespace, kind and name, the reference resolves, and to a source of that kind.
  pub resolve-prefers_kind :
      (k name : Text) (t : Source)
      → Lacks b'/' k
      → In t ss
      → t.ns ≡ a.ns
      → t.name ≡ name
      → source_kind_text t.kind ≡ k
      → (s : Source) × (resolve
            (index_from empty_index ss)
            a
            (record { kind = some k; name = name })
          ≡ some s)
        × In s ss
        × (source_kind_text s.kind ≡ k)
        × (s.ns ≡ a.ns)
        × (s.name ≡ name)
  resolve-prefers_kind k name t hk i u v w =
      let here = keep-In (at_place a name) t ss i (rw (u, v, =t_refl a.ns) (=t_refl name)) in
      let kinded =
        keep-In (of_kind (some k)) t (keep (at_place a name) ss) here (rw w (=t_refl k)) in
      let (s, e, j) =
        In-last_or t none (keep (of_kind (some k)) (keep (at_place a name) ss)) kinded in
      let (j', of) = In-keep (of_kind (some k)) s (keep (at_place a name) ss) j in
      let (j'', at) = In-keep (at_place a name) s ss j' in
      let (p, q) = at_place_parts a name s at in
      (
        s,
        resolve-plain ss a free ns_free (record { kind = some k; name = name }) hk ∙ rw e,
        j'',
        =t_eq _ _ of,
        p,
        q,
      )

  -- Where no namespace holds a slash, nor the kind, a reference to a kind resolves to a source of
  -- another kind, if that is the only source of its namespace and name.
  pub resolve-other_kind :
      (k name : Text) (t : Source)
      → Lacks b'/' k
      → keep (at_place a name) ss ≡ t ∷ []
      → source_kind_text t.kind ≢ k
      → resolve (index_from empty_index ss) a (record { kind = some k; name = name }) ≡ some t
  resolve-other_kind k name t hk alone other =
      resolve-plain ss a free ns_free (record { kind = some k; name = name }) hk
      ∙ rw alone (elim (Bool-cases (source_kind_text t.kind =t k)) [
        | inl e ↦ absurd (other (=t_eq _ _ e))
        | inr e ↦ rw e
      ])
