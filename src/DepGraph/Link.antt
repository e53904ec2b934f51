-- ===== src/DepGraph/Link.antt =====
-- web/src/lib/depGraph.ts, buildClusterGraphs: the loop over one cluster's applications.
use yafu.Base.{◌++◌, Option, none, some, List, [], ◌∷◌, Text, add}
use yafu.ApiTypes.{Application, Source}
use yafu.DepGraph.{DepEdge, parse_source_ref, edge_tone}
use yafu.DepGraph.Index.{SourceIndex, resolve}

pub record Links : Type 0 where
  pub edges : List DepEdge
  pub orphan_apps : List Application
  pub used_sources : List Text
  pub matched_apps : List Application

abbrev pub no_links : Links
no_links = record { edges = []; orphan_apps = []; used_sources = []; matched_apps = [] }

abbrev pub edge : Source → Application → DepEdge
edge s a = record { source_id = s.id; app_id = a.id; tone = edge_tone s a }

unfoldable pub attach : Links → Application → Option Source → Links
attach st a none = record st { orphan_apps = st.orphan_apps ++ a ∷ [] }
attach st a (some s) = record st {
  edges = st.edges ++ edge s a ∷ [];
  used_sources = add s.id st.used_sources;
  matched_apps = st.matched_apps ++ a ∷ [];
}

-- one round of the loop: `continue` on an application that names no source
unfoldable pub link : SourceIndex → Links → Application → Links
unfolding attach
link ix st a = elim (parse_source_ref (some a.source)) [
  | none ↦ st
  | some ref ↦ attach st a (resolve ix a ref)
]

unfoldable pub link_all : SourceIndex → Links → List Application → Links
unfolding link
link_all ix st [] = st
link_all ix st (a ∷ as') = link_all ix (link ix st a) as'
