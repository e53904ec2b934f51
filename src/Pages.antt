-- ===== src/Pages.antt =====
-- web/src/pages: the filter of the activity page, the incidents of the on-call view, the totals of
-- the fleet, and the counts of the sources, whose kinds are no names that a plain object inherits.
-- The children have the pages and their handlers. `toLowerCase` is a parameter.
pub mod Rows
pub mod Busy
pub mod Images
pub mod Alerts
pub mod Sources
pub mod Fleet
pub mod OnCall
pub mod Changers
pub mod Activity
pub mod Settings
pub mod Preferences
pub mod Tallies
pub mod PerKey
mod Tests
use Prim.Native.Nat.{compare}
use yafu.Base.{
  ℕ, ◌+◌, Bool, true, false, ◌&&◌, ◌||◌, not, Option, or_else, List, [], ◌∷◌, map, Text, codes,
  truthy, includes, take, keep, length, if◌then◌else◌,
}
use yafu.Base.Entries.{Entries, get, put}
use yafu.Base.Sort.{Comparator, sort}
use yafu.ApiTypes.{Application, Source, Cluster, FluxEvent, EventKind, source_kind_text}
use yafu.DepGraph.{is_failing, is_degraded}
use yafu.Queries.Mutations.{source_action_url, MutationVerb}

-- pages/Activity.tsx
pub data Severity : Type 0 where
  all ok warn err : Severity

abbrev pub of_severity : Severity → EventKind → Bool
of_severity all k = true
of_severity ok EventKind.ok = true
of_severity warn EventKind.warn = true
of_severity err EventKind.err = true
of_severity _ _ = false

module _ (lower : Text → Text) where
  unfoldable pub shown_events : Severity → Text → List FluxEvent → List FluxEvent
  shown_events severity search = keep λ e.
      of_severity severity e.kind
      && (not (truthy search)
          || (includes (lower e.reason) (lower search)
              || (includes (lower e.message) (lower search)
                  || (includes (lower e.object) (lower search)
                      || includes (lower e.ns) (lower search)))))

-- pages/Mobile.tsx
unfoldable pub incidents : List Application → List Application
incidents = keep (λ a. is_failing a.status || is_degraded a.status)

abbrev pub firing : List Application → ℕ
firing apps = length (keep (λ a. is_failing a.status) (incidents apps))

-- pages/Fleet.tsx
pub record FleetTotals : Type 0 where
  pub apps : ℕ
  pub ready : ℕ
  pub failing : ℕ
  pub suspended : ℕ

abbrev sum_of : (Cluster → ℕ) → ℕ → List Cluster → ℕ
sum_of f acc [] = acc
sum_of f acc (c ∷ cs) = sum_of f (acc + f c) cs

unfoldable pub fleet_totals : List Cluster → FleetTotals
fleet_totals cs = record {
  apps = sum_of (λ c. c.apps) 0 cs;
  ready = sum_of (λ c. c.ready) 0 cs;
  failing = sum_of (λ c. c.failing) 0 cs;
  suspended = sum_of (λ c. c.suspended) 0 cs;
}

-- pages/Sources.tsx
unfoldable pub by_kind : Entries ℕ → List Source → Entries ℕ
by_kind acc [] = acc
by_kind acc (s ∷ ss) =
    by_kind (put (source_kind_text s.kind) (or_else (get (source_kind_text s.kind) acc) 0 + 1) acc)
      ss

-- the calls that the button makes, one for each source
abbrev pub reconcile_sources : List Source → List (Option Text)
reconcile_sources = map (λ s. source_action_url s MutationVerb.reconcile)
