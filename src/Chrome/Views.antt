-- ===== src/Chrome/Views.antt =====
-- web/src/components/ClusterCard.tsx, Sidebar.tsx and Sparkline.tsx: what they show.
use yafu.Base.{
  ℕ, ltb, ◌-◌, Bool, true, false, ◌&&◌, ◌||◌, not, Option, none, some, or_else, is_some, List, [],
  ◌∷◌, ◌++◌, map, Text, codes, ◌=t◌, decimal, truthy, take, keep, length, join, leb, if◌then◌else◌,
}
use yafu.ApiTypes.{Application, Cluster, WhoamiResponse, cluster_status_text}
use yafu.Chrome.{
  Overall, overall, other_apps, status_chip, NavItem, nav_items, cluster_dot, brand_sub,
  display_name, subline,
}
use yafu.Markup.{Piece, says, toned, dot, row, button, link, shown, if_text}
use yafu.Shell.{PageId, SidebarMode}

abbrev overall_text : Overall → Text
overall_text Overall.ok = codes "ok"
overall_text Overall.warn = codes "warn"
overall_text Overall.err = codes "err"

-- Sparkline: nothing is drawn of fewer than two values. The values stand for the path that is drawn.
abbrev pub sparkline : {A : Type 0} → Text → List ℕ → List (Piece A)
sparkline status values =
    shown (leb 2 (length values)) (toned status (join (codes " ") (map decimal values)) ∷ [])

-- ClusterCard, of a cluster as `asCardCluster` of the fleet page adapts it
unfoldable pub cluster_card : {A : Type 0} → A → Bool → Cluster → List (Piece A)
unfolding overall status_chip join
cluster_card on_click active c =
    row active (some on_click)
    ∷ says c.name
    ∷ (if_text c.region (λ t. says t ∷ [])
        ++ (toned (status_chip (cluster_status_text c.status) none).cls
              (status_chip (cluster_status_text c.status) none).text
            ∷ says (decimal c.ready)
            ∷ says (codes "Ready")
            ∷ says (decimal c.failing)
            ∷ says (codes "Failing")
            ∷ says (decimal (other_apps c))
            ∷ says (codes "Other")
            ∷ says (decimal c.suspended)
            ∷ says (codes "Susp.")
            ∷ says (
                decimal c.apps
                ++ (codes " apps · "
                    ++ (decimal c.sources
                        ++ (codes " sources" ++ if_text c.version (λ v. codes " · flux " ++ v)))))
            ∷ (if_text c.env (λ t. says t ∷ [])
                ++ shown (ltb 1 (length (or_else c.spark [])))
                    (sparkline (overall_text (overall c)) (or_else c.spark [])))))

pub data SidebarAction : Type 0 where
  pick_cluster : SidebarAction
  navigate : PageId → SidebarAction

-- an entry of the navigation: whether it is the current page, and its title
pub record NavEntry : Type 0 where
  pub section : Option Text
  pub label : Text
  pub title : Option Text
  pub is_current : Bool
  pub count : Option ℕ
  pub count_class : Text
  pub on_click : SidebarAction

abbrev is_icons : SidebarMode → Bool
is_icons SidebarMode.icons = true
is_icons _ = false

abbrev page_text : PageId → Text
page_text PageId.fleet = codes "fleet"
page_text PageId.apps = codes "apps"
page_text PageId.sources = codes "sources"
page_text PageId.dependencies = codes "dependencies"
page_text PageId.alerts = codes "alerts"
page_text PageId.events = codes "events"
page_text PageId.images = codes "images"
page_text PageId.mobile = codes "mobile"
page_text PageId.settings = codes "settings"

abbrev pub nav_entry : PageId → SidebarMode → NavItem → NavEntry
nav_entry active side it = record {
  section = it.section;
  label = it.label;
  title = if is_icons side then some it.label else none;
  is_current = page_text active =t page_text it.id;
  count = it.count;
  count_class = if it.is_err then codes "err" else [];
  on_click = navigate it.id;
}

unfoldable pub nav_entries : PageId → SidebarMode → List Cluster → List Application → List NavEntry
unfolding nav_items
nav_entries active side clusters apps = map (nav_entry active side) (nav_items clusters apps)

abbrev cluster_name : Option Cluster → Text
cluster_name none = codes "no cluster selected"
cluster_name (some c) = c.name

-- the head of the sidebar; its button asks for `onClusterClick`
unfoldable pub side_head : List Cluster → Option Cluster → List (Piece SidebarAction)
unfolding brand_sub
side_head clusters cluster =
    says (codes "YAFU")
    ∷ says (brand_sub clusters)
    ∷ says (codes "Active Cluster")
    ∷ dot (cluster_dot cluster)
    ∷ button record {
      label = cluster_name cluster;
      title = [];
      pressed = none;
      disabled = not (is_some cluster);
      on_click = pick_cluster;
    }
    ∷ []

-- a letter or a digit, as the pattern of the initials has them
abbrev is_word_unit : ℕ → Bool
is_word_unit c =
    (leb b'A' c && leb c b'Z') || ((leb b'a' c && leb c b'z') || (leb b'0' c && leb c b'9'))

abbrev upper_unit : ℕ → ℕ
upper_unit c = if leb b'a' c && leb c b'z' then c - 32 else c

-- the first two letters or digits, as capitals
abbrev pub initials : Text → Text
initials name =
    let found = map upper_unit (take 2 (keep is_word_unit name)) in
    if truthy found then found else codes "YA"

abbrev sign_out : Option WhoamiResponse → List (Piece SidebarAction)
sign_out none = []
sign_out (some me) = shown (not me.is_anonymous) (link (codes "/auth/logout") (codes "⎋") ∷ [])

-- SidebarFoot
unfoldable pub sidebar_foot : Option WhoamiResponse → List (Piece SidebarAction)
sidebar_foot me =
    says (initials (display_name me)) ∷ says (display_name me) ∷ says (subline me) ∷ sign_out me
