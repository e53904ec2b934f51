-- ===== src/Pages/Changers.antt =====
-- web/src/pages/Activity.tsx: the count of the events by source component, and the components with
-- the most events. What the engine writes of a function that a plain object inherits is a parameter.
use Prim.Native.Nat.{Ordering, compare}
use yafu.Base.{
  ℕ, ◌+◌, ltb, ◌&&◌, not, Bool, Option, none, some, List, [], ◌∷◌, ◌++◌, Text, codes, truthy, take,
  keep, if◌then◌else◌, has, ◌=t◌, decimal, number_of,
}
use yafu.Base.Entries.{Entries, get, put}
use yafu.Base.Sort.{Comparator, sort}
use yafu.ApiTypes.{FluxEvent}
use yafu.Stream.{inherited_names}

-- What a key of the counts holds: a number, or a text where `+` has met an inherited function.
pub data Tally : Type 0 where
  number : ℕ → Tally
  written : Text → Tally

abbrev pub source_or_unknown : FluxEvent → Text
source_or_unknown e = if truthy e.source then e.source else codes "unknown"

-- Assigning a number or a text to `__proto__` does nothing.
abbrev pub assign : Text → Tally → Entries Tally → Entries Tally
assign k v acc = if k =t codes "__proto__" then acc else put k v acc

-- The keys of a plain object that are array indexes, which are below 2 ^ 32 - 1.
abbrev pub is_index : Text → Bool
is_index k = (decimal (number_of 0 k) =t k) && ltb (number_of 0 k) 4294967295

abbrev by_index : Comparator (Text × Tally)
by_index a b = compare (number_of 0 a.0) (number_of 0 b.0)

-- `Object.entries`: the array indexes in ascending order, then the other keys in the order of their
-- insertion.
unfoldable pub object_entries : Entries Tally → Entries Tally
object_entries m = sort by_index (keep (λ e. is_index e.0) m) ++ keep (λ e. not (is_index e.0)) m

-- `b[1] - a[1]`, the most frequent first: a text of this kind is no number, and the sort reads NaN as
-- equal. The engine's order is this one where no count is a text, and is its own choice otherwise.
abbrev pub by_count : Comparator (Text × Tally)
by_count (_, number m) (_, number n) = compare n m
by_count _ _ = Ordering.eq

module _ (native : Text → Text) where
  -- `(acc[k] ?? 0) + 1`, from the object's own value at `k`
  abbrev pub plus_one : Text → Option Tally → Tally
  plus_one k none = if has k inherited_names then written (native k ++ codes "1") else number 1
  plus_one k (some (number n)) = number (n + 1)
  plus_one k (some (written t)) = written (t ++ codes "1")

  unfoldable pub source_counts : Entries Tally → List FluxEvent → Entries Tally
  source_counts acc [] = acc
  source_counts acc (e ∷ es) =
      let k = source_or_unknown e in source_counts (assign k (plus_one k (get k acc)) acc) es

  unfoldable pub top_changers : List FluxEvent → Entries Tally
  unfolding source_counts object_entries
  top_changers events = take 5 (sort by_count (object_entries (source_counts [] events)))
