-- ===== src/DepGraph/Index.antt =====
-- web/src/lib/depGraph.ts, buildClusterGraphs: the two lookups of a cluster's sources, and how an
-- application's reference is resolved with them.
use yafu.Base.{
  ◌++◌, Bool, Option, none, some, List, [], ◌∷◌, Text, ◌=t◌, find, truthy, or_else, if◌then◌else◌,
}
use yafu.Base.Entries.{Entries, get, put}
use yafu.ApiTypes.{Application, Source, source_kind_text}
use yafu.DepGraph.{SourceRef}

-- `${ns}/${kind}/${name}` and `${ns}/${name}`
abbrev pub kind_key : Text → Text → Text → Text
kind_key ns kind name = ns ++ b'/' ∷ (kind ++ b'/' ∷ name)

abbrev pub name_key : Text → Text → Text
name_key ns name = ns ++ b'/' ∷ name

abbrev pub source_kind_key : Source → Text
source_kind_key s = kind_key s.ns (source_kind_text s.kind) s.name

abbrev pub source_name_key : Source → Text
source_name_key s = name_key s.ns s.name

pub record SourceIndex : Type 0 where
  pub by_ns_kind_name : Entries Source
  pub by_ns_name : Entries (List Source)

abbrev pub empty_index : SourceIndex
empty_index = record { by_ns_kind_name = []; by_ns_name = [] }

-- one round of the loop over the sources
unfoldable pub index_source : SourceIndex → Source → SourceIndex
index_source ix s = record {
  by_ns_kind_name = put (source_kind_key s) s ix.by_ns_kind_name;
  by_ns_name =
      put (source_name_key s) (or_else (get (source_name_key s) ix.by_ns_name) [] ++ s ∷ [])
        ix.by_ns_name;
}

unfoldable pub index_from : SourceIndex → List Source → SourceIndex
unfolding index_source
index_from ix [] = ix
index_from ix (s ∷ ss) = index_from (index_source ix s) ss

abbrev pub kind_truthy : SourceRef → Bool
kind_truthy ref = truthy (or_else ref.kind [])

-- the choice among the candidates of one namespace and name
unfoldable pub pick : SourceRef → Option (List Source) → Option Source
pick ref none = none
pick ref (some []) = none
pick ref (some (c ∷ [])) = some c
pick ref (some (c ∷ d ∷ cs)) =
    if kind_truthy ref
    then find (λ s. source_kind_text s.kind =t or_else ref.kind []) (c ∷ d ∷ cs)
    else none

abbrev pub or_try : Option Source → Option Source → Option Source
or_try (some s) rest = some s
or_try none rest = rest

unfoldable pub resolve : SourceIndex → Application → SourceRef → Option Source
unfolding pick
resolve ix a ref =
    or_try
      (if kind_truthy ref
        then get (kind_key a.ns (or_else ref.kind []) ref.name) ix.by_ns_kind_name
        else none)
      (pick ref (get (name_key a.ns ref.name) ix.by_ns_name))
