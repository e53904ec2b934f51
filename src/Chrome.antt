-- ===== src/Chrome.antt =====
-- web/src/components: the chips, the badges, the sidebar and the cards of the clusters, as what they
-- show.
pub mod Views
use yafu.Base.{
  ℕ, ◌+◌, ◌-◌, ltb, ◌==◌, Bool, true, false, Option, none, some, or_else, List, [], ◌∷◌, ◌++◌, Text,
  codes, decimal, truthy, keep, length, if◌then◌else◌,
}
use yafu.Base.Entries.{Entries, get}
use yafu.ApiTypes.{Application, Cluster, ClusterStatus, WhoamiResponse}
use yafu.DepGraph.{is_failing}
use yafu.Shell.{PageId}

-- components/StatusChip.tsx
pub record Chip : Type 0 where
  pub cls : Text
  pub text : Text

abbrev chip : Text → Text → Chip
chip c t = record { cls = c; text = t }

unfoldable pub chip_map : Entries Chip
chip_map =
    (codes "healthy", chip (codes "ok") (codes "Ready"))
    ∷ (codes "ready", chip (codes "ok") (codes "Ready"))
    ∷ (codes "Synced", chip (codes "ok") (codes "Synced"))
    ∷ (codes "ok", chip (codes "ok") (codes "Ready"))
    ∷ (codes "progressing", chip (codes "info") (codes "Progressing"))
    ∷ (codes "Progressing", chip (codes "info") (codes "Progressing"))
    ∷ (codes "degraded", chip (codes "warn") (codes "Degraded"))
    ∷ (codes "warn", chip (codes "warn") (codes "Warning"))
    ∷ (codes "failing", chip (codes "err") (codes "Failed"))
    ∷ (codes "err", chip (codes "err") (codes "Failed"))
    ∷ (codes "OutOfSync", chip (codes "err") (codes "OutOfSync"))
    ∷ (codes "paused", chip (codes "paused") (codes "Suspended"))
    ∷ (codes "Suspended", chip (codes "paused") (codes "Suspended"))
    ∷ (codes "firing", chip (codes "err") (codes "Firing"))
    ∷ []

-- The callers pass literals of the API's unions, so no name that the plain object inherits arises.
unfoldable pub status_chip : Text → Option Text → Chip
unfolding chip_map
status_chip status label =
    let m = or_else (get status chip_map) (chip (codes "muted") status) in
    record m { text = or_else label m.text }

-- components/KindBadge.tsx
pub record Badge : Type 0 where
  pub color : Text
  pub bg : Text

abbrev badge : Text → Text → Badge
badge c b = record { color = c; bg = b }

unfoldable pub badge_map : Entries Badge
badge_map =
    (codes "Kustomization", badge (codes "var(--accent-ink)") (codes "var(--accent-soft)"))
    ∷ (codes "HelmRelease", badge (codes "var(--info)") (codes "var(--info-soft)"))
    ∷ (codes "GitRepository", badge (codes "var(--accent-ink)") (codes "var(--accent-soft)"))
    ∷ (codes "HelmRepository", badge (codes "var(--info)") (codes "var(--info-soft)"))
    ∷ (codes "OCIRepository", badge (codes "var(--warn)") (codes "var(--warn-soft)"))
    ∷ (codes "Bucket", badge (codes "var(--ink-2)") (codes "var(--bg-3)"))
    ∷ []

-- The callers pass the kinds of applications and of sources only, as above.
unfoldable pub kind_badge : Text → Badge
unfolding badge_map
kind_badge kind = or_else (get kind badge_map) (badge (codes "var(--ink-2)") (codes "var(--bg-3)"))

-- components/Sidebar.tsx
pub record NavItem : Type 0 where
  pub id : PageId
  pub label : Text
  pub count : Option ℕ
  pub is_err : Bool
  pub section : Option Text

abbrev pub total_failing : List Cluster → ℕ → ℕ
total_failing [] acc = acc
total_failing (c ∷ cs) acc = total_failing cs (acc + c.failing)

-- `n || undefined`
abbrev or_undefined : ℕ → Option ℕ
or_undefined n = if n == 0 then none else some n

abbrev pub nav : PageId → Text → NavItem
nav id label = record { id = id; label = label; count = none; is_err = false; section = none }

abbrev pub failing_apps : List Application → ℕ
failing_apps apps = length (keep (λ a. is_failing a.status) apps)

unfoldable pub nav_items : List Cluster → List Application → List NavItem
nav_items clusters apps =
    record (nav PageId.fleet (codes "Fleet")) {
      count = or_undefined (length clusters);
      section = some (codes "Overview");
    }
    ∷ record (nav PageId.apps (codes "Applications")) { count = or_undefined (length apps) }
    ∷ record (nav PageId.sources (codes "Sources")) { section = some (codes "Catalog") }
    ∷ nav PageId.dependencies (codes "Dependencies")
    ∷ nav PageId.images (codes "Image Updates")
    ∷ nav PageId.alerts (codes "Alerts")
    ∷ record (nav PageId.events (codes "Activity")) { section = some (codes "Operate") }
    ∷ record (nav PageId.mobile (codes "On-call view")) {
      count = or_undefined (failing_apps apps);
      is_err = ltb 0 (failing_apps apps);
    }
    ∷ record (nav PageId.settings (codes "Settings")) { section = some (codes "Admin") }
    ∷ []

abbrev pub cluster_dot : Option Cluster → Text
cluster_dot none = codes "var(--paused)"
cluster_dot (some c) = elim c.status [
  | ClusterStatus.unreachable ↦ codes "var(--err)"
  | ClusterStatus.failing ↦ codes "var(--err)"
  | ClusterStatus.degraded ↦ codes "var(--warn)"
  | ClusterStatus.healthy ↦ codes "var(--ok)"
]

unfoldable pub brand_sub : List Cluster → Text
brand_sub [] = codes "no clusters"
brand_sub (c ∷ cs) =
    decimal (length (c ∷ cs))
    ++ codes " cluster"
    ++ (if length (c ∷ cs) == 1 then [] else codes "s")
    ++ (if ltb 0 (total_failing (c ∷ cs) 0)
        then codes " · " ++ decimal (total_failing (c ∷ cs) 0) ++ codes " failing"
        else [])

abbrev pub or_text : Text → Text → Text
or_text s t = if truthy s then s else t

abbrev pub display_name : Option WhoamiResponse → Text
display_name none = codes "yafu"
display_name (some me) =
    or_text (or_else me.name []) (or_text (or_else me.email []) (or_text me.subject (codes "yafu")))

abbrev pub subline : Option WhoamiResponse → Text
subline none = codes "v0.1 alpha"
subline (some me) =
    if me.is_anonymous then codes "v0.1 alpha" else or_text (or_else me.email []) me.subject

-- components/ClusterCard.tsx
pub data Overall : Type 0 where
  ok warn err : Overall

abbrev is_down : ClusterStatus → Bool
is_down ClusterStatus.failing = true
is_down ClusterStatus.unreachable = true
is_down _ = false

unfoldable pub overall : Cluster → Overall
overall c = if ltb 0 c.failing then (if is_down c.status then err else warn) else ok

-- `Math.max(0, other)`
abbrev pub other_apps : Cluster → ℕ
other_apps c = c.apps - c.ready - c.failing - c.suspended
