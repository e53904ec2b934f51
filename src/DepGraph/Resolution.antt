-- ===== src/DepGraph/Resolution.antt =====
-- web/src/lib/depGraph.ts: what the two lookups hold, and so which source a reference resolves to.
use yafu.Base.{
  ◌≡◌, refl, ◌∙◌, inl, inr, Option, none, some, List, [], ◌∷◌, ◌++◌, append_assoc, append-nil, Text,
  ◌=t◌, =t_eq, keep, Bool-cases, or_else, if◌then◌else◌,
}
use yafu.Base.Entries.{get, get-put}
use yafu.ApiTypes.{Application, Source}
use yafu.DepGraph.{SourceRef}
use yafu.DepGraph.Index.{
  kind_key, name_key, source_kind_key, source_name_key, SourceIndex, empty_index, index_source,
  index_from, kind_truthy, pick, or_try, resolve,
}

-- The last entry, if there is one.
abbrev pub last_or : Option Source → List Source → Option Source
last_or o [] = o
last_or o (s ∷ ss) = last_or (some s) ss

-- The candidates so far, with more behind them.
abbrev pub extended : Option (List Source) → List Source → Option (List Source)
extended o [] = o
extended o (s ∷ ss) = extended (some (or_else o [] ++ s ∷ [])) ss

abbrev pub of_kind_key : Text → List Source → List Source
of_kind_key k = keep (λ s. source_kind_key s =t k)

abbrev pub of_name_key : Text → List Source → List Source
of_name_key k = keep (λ s. source_name_key s =t k)

get-by_ns_kind_name :
    (k : Text) (ix : SourceIndex) (ss : List Source)
    → get k (index_from ix ss).by_ns_kind_name
      ≡ last_or (get k ix.by_ns_kind_name) (of_kind_key k ss)
unfolding index_from index_source
get-by_ns_kind_name k ix [] = refl
get-by_ns_kind_name k ix (s ∷ ss) = elim (Bool-cases (source_kind_key s =t k)) [
  | inl e ↦
      get-by_ns_kind_name k (index_source ix s) ss
      ∙ rw (get-put k (source_kind_key s) s ix.by_ns_kind_name, e)
  | inr e ↦
      get-by_ns_kind_name k (index_source ix s) ss
      ∙ rw (get-put k (source_kind_key s) s ix.by_ns_kind_name, e)
]

get-by_ns_name :
    (k : Text) (ix : SourceIndex) (ss : List Source)
    → get k (index_from ix ss).by_ns_name ≡ extended (get k ix.by_ns_name) (of_name_key k ss)
unfolding index_from index_source
get-by_ns_name k ix [] = refl
get-by_ns_name k ix (s ∷ ss) = elim (Bool-cases (source_name_key s =t k)) [
  | inl e ↦
      get-by_ns_name k (index_source ix s) ss
      ∙ rw
          (
            get-put k (source_name_key s)
                (or_else (get (source_name_key s) ix.by_ns_name) [] ++ s ∷ []) ix.by_ns_name,
            e,
          )
          (rw (=t_eq _ _ e))
  | inr e ↦
      get-by_ns_name k (index_source ix s) ss
      ∙ rw (
        get-put k (source_name_key s) (or_else (get (source_name_key s) ix.by_ns_name) [] ++ s ∷ [])
            ix.by_ns_name,
        e,
      )
]

extended-some : (xs ys : List Source) → extended (some xs) ys ≡ some (xs ++ ys)
extended-some xs [] = rw append-nil
extended-some xs (y ∷ ys) = extended-some (xs ++ y ∷ []) ys ∙ rw append_assoc

-- The candidates, as `Map.get` gives them: none rather than an empty list.
abbrev pub candidates : List Source → Option (List Source)
candidates [] = none
candidates (s ∷ ss) = some (s ∷ ss)

extended-none : (ys : List Source) → extended none ys ≡ candidates ys
extended-none [] = refl
extended-none (y ∷ ys) = extended-some (y ∷ []) ys

-- Resolution of a reference in a list of sources, without the lookups.
abbrev pub resolve_in : List Source → Application → SourceRef → Option Source
resolve_in ss a ref =
    or_try
      (if kind_truthy ref
        then last_or none (of_kind_key (kind_key a.ns (or_else ref.kind []) ref.name) ss)
        else none)
      (pick ref (candidates (of_name_key (name_key a.ns ref.name) ss)))

-- The lookups built by the loop over the sources answer as the list of sources does: the last
-- source of the namespace, kind and name, and else the choice among those of the namespace and name.
pub resolve-index_from :
    (ss : List Source) (a : Application) (ref : SourceRef)
    → resolve (index_from empty_index ss) a ref ≡ resolve_in ss a ref
unfolding resolve get
resolve-index_from ss a ref = rw (
  get-by_ns_kind_name (kind_key a.ns (or_else ref.kind []) ref.name) empty_index ss,
  get-by_ns_name (name_key a.ns ref.name) empty_index ss,
  extended-none (of_name_key (name_key a.ns ref.name) ss),
)
