-- ===== src/DepGraph.antt =====
-- web/src/lib/depGraph.ts: the types of the graph, source references, tones, and the order of the
-- columns. The children have the indexes, the loop over one cluster, the whole build, and proofs.
pub mod Index
pub mod Link
pub mod Build
pub mod Keys
pub mod Resolution
pub mod Matching
pub mod Resolves
pub mod Loop
pub mod Columns
pub mod Clusters
pub mod Edges
pub mod Made
pub mod Order
pub mod Graphs
mod Fixtures
mod ResolveTests
mod Tests
use Prim.Native.Nat.{compare, Ordering}
use yafu.Base.{
  ℕ, ◌+◌, Bool, true, false, ◌||◌, Option, none, some, List, [], ◌∷◌, Text, take, drop, index_of,
  if◌then◌else◌,
}
use yafu.Base.Sort.{Comparator}
use yafu.ApiTypes.{Application, Source, Status}

pub data EdgeTone : Type 0 where
  ok warn err muted : EdgeTone

pub record DepEdge : Type 0 where
  pub source_id : Text
  pub app_id : Text
  pub tone : EdgeTone

pub record ClusterDepGraph : Type 0 where
  pub cluster_id : Text
  pub cluster_name : Text
  pub sources : List Source
  pub apps : List Application
  pub edges : List DepEdge
  pub orphan_apps : List Application
  pub unused_sources : List Source

pub record SourceRef : Type 0 where
  pub kind : Option Text
  pub name : Text

-- `none` stands for -1
ref_at : Text → Option ℕ → SourceRef
ref_at s none = record { kind = none; name = s }
ref_at s (some idx) = record { kind = some (take idx s); name = drop (idx + 1) s }

-- `undefined` and the empty text are no reference
unfoldable pub parse_source_ref : Option Text → Option SourceRef
unfolding ref_at
parse_source_ref none = none
parse_source_ref (some []) = none
parse_source_ref (some (c ∷ s)) = some (ref_at (c ∷ s) (index_of b'/' (c ∷ s)))

abbrev pub is_failing : Status → Bool
is_failing Status.failing = true
is_failing _ = false

abbrev pub is_degraded : Status → Bool
is_degraded Status.degraded = true
is_degraded _ = false

unfoldable pub edge_tone : Source → Application → EdgeTone
edge_tone s a =
    if is_failing s.status || is_failing a.status
    then err
    else if is_degraded s.status || is_degraded a.status
    then warn
    else if a.suspended
    then muted
    else ok

abbrev pub rank : Status → ℕ
rank Status.failing = 0
rank Status.degraded = 1
rank Status.progressing = 2
rank _ = 3

-- `String.prototype.localeCompare` depends on the host's locale, and is a parameter: only the sign
-- of its result is read.
abbrev pub LocaleCompare : Type 0
LocaleCompare = Comparator Text

-- The sign of `r` where `r !== 0`, and of the comparison of the names otherwise.
abbrev ranked : Ordering → Ordering → Ordering
ranked Ordering.eq names = names
ranked r names = r

module _ {T : Type 0} (locale_compare : LocaleCompare) (status : T → Status) (name : T → Text) where
  unfoldable pub severity_name_sort : Comparator T
  severity_name_sort a b =
      ranked (compare (rank (status a)) (rank (status b))) (locale_compare (name a) (name b))
