-- ===== src/Pages/Settings.antt =====
-- web/src/pages/Settings.tsx: the identity, the build, the preferences and the registered clusters.
use yafu.Base.{
  false, not, Option, none, some, or_else, List, [], ◌∷◌, ◌++◌, map, Text, codes, decimal, ◌=t◌,
  truthy, take, keep, length, if◌then◌else◌,
}
use yafu.Base.Entries.{Entries, get}
use yafu.ApiTypes.{Cluster, ClustersResponse, WhoamiResponse}
use yafu.Markup.{
  Piece, says, toned, row, button, link, shown, if_some, or_text, or_dash, each, Query,
}
use yafu.Shell.{Theme, Density, SidebarMode, Prefs, Change, to_theme, to_density, to_sidebar}

-- Seg: a button for each option, and the one of the value is active
abbrev seg_button : {T : Type 0} → (T → Text) → (T → Change) → T → T × Text → Piece Change
seg_button text_of change value (v, label) = button record {
  label = label;
  title = [];
  pressed = some (text_of value =t text_of v);
  disabled = false;
  on_click = change v;
}

unfoldable pub seg :
    {T : Type 0} → (T → Text) → (T → Change) → T → List (T × Text) → List (Piece Change)
seg text_of change value options = map (seg_button text_of change value) options

abbrev pub theme_text : Theme → Text
theme_text Theme.light = codes "light"
theme_text Theme.dark = codes "dark"

abbrev pub density_text : Density → Text
density_text Density.compact = codes "compact"
density_text Density.comfortable = codes "comfortable"

abbrev pub sidebar_text : SidebarMode → Text
sidebar_text SidebarMode.labeled = codes "labeled"
sidebar_text SidebarMode.icons = codes "icons"
sidebar_text SidebarMode.collapsed = codes "collapsed"

unfoldable pub preferences_panel : Prefs → List (Piece Change)
unfolding seg
preferences_panel p =
    says (codes "Preferences")
    ∷ says (codes "stored in localStorage · yafu.prefs.v1")
    ∷ says (codes "Theme")
    ∷ (seg theme_text to_theme p.theme
          ((Theme.light, codes "Light") ∷ (Theme.dark, codes "Dark") ∷ [])
        ++ (says (codes "Density")
            ∷ (seg density_text to_density p.density (
                  (Density.compact, codes "Compact")
                  ∷ (Density.comfortable, codes "Comfortable")
                  ∷ [])
                ++ (says (codes "Sidebar")
                    ∷ seg sidebar_text to_sidebar p.sidebar (
                        (SidebarMode.labeled, codes "Labels")
                        ∷ (SidebarMode.icons, codes "Icons")
                        ∷ (SidebarMode.collapsed, codes "Hidden")
                        ∷ [])))))

abbrev kv : Text → Text → List (Piece Change)
kv k v = says k ∷ says v ∷ []

abbrev pub groups_pieces : List Text → List (Piece Change)
groups_pieces [] = says (codes "—") ∷ []
groups_pieces (g ∷ gs) = map says (g ∷ gs)

abbrev identity_rows : WhoamiResponse → List (Piece Change)
identity_rows me =
    kv (codes "Subject") (or_text me.subject (codes "—"))
    ++ (kv (codes "Name") (or_dash me.name)
        ++ (kv (codes "Email") (or_dash me.email)
            ++ (says (codes "Auth")
                ∷ toned (codes "chip " ++ (if me.is_anonymous then codes "warn" else codes "ok"))
                    (if me.is_anonymous then codes "anonymous" else codes "authenticated")
                ∷ says (codes "Groups")
                ∷ groups_pieces (or_else me.groups []))))

unfoldable pub identity_panel : Query WhoamiResponse → List (Piece Change)
identity_panel q =
    says (codes "Identity")
    ∷ (if_some q.result
          (λ me. shown (not me.is_anonymous) (link (codes "/auth/logout") (codes "Sign out") ∷ []))
        ++ (shown q.is_loading (says (codes "loading identity…") ∷ [])
            ++ (if_some q.error (λ m. says m ∷ []) ++ if_some q.result identity_rows)))

-- `data?.key || ''`
abbrev version_field : Option (Entries Text) → Text → Text
version_field none k = []
version_field (some d) k = or_else (get k d) []

abbrev commit_text : Text → Text
commit_text commit = if truthy commit then take 12 commit else codes "—"

unfoldable pub build_panel : Query (Entries Text) → List (Piece Change)
unfolding get
build_panel q =
    says (codes "yafu binary")
    ∷ link (codes "https://github.com/guipguia/yafu") (codes "GitHub")
    ∷ (shown q.is_loading (says (codes "loading build info…") ∷ [])
        ++ (if_some q.error (λ m. says m ∷ [])
            ++ if_some q.result (λ _.
              kv (codes "Version")
                (or_text (version_field q.result (codes "version")) (codes "dev"))
              ++ (kv (codes "Commit") (commit_text (version_field q.result (codes "commit")))
                  ++ kv (codes "Built")
                      (or_text (version_field q.result (codes "date")) (codes "—"))))))

abbrev pub clusters_of : Option ClustersResponse → List Cluster
clusters_of none = []
clusters_of (some d) = d.clusters

abbrev pub fleet_meta : Query ClustersResponse → Text
fleet_meta q =
    let clusters = clusters_of q.result in
    if q.is_loading
    then codes "loading…"
    else decimal (length clusters)
      ++ (codes " total · "
          ++ (decimal (length (keep (λ c. c.reachable) clusters))
              ++ (codes " reachable · "
                  ++ (decimal (length (keep (λ c. c.flux_installed) clusters))
                      ++ codes " with Flux"))))

abbrev cluster_row : Cluster → List (Piece Change)
cluster_row c =
    row false none
    ∷ says c.name
    ∷ says (or_dash c.env)
    ∷ says (or_dash c.region)
    ∷ toned (codes "chip " ++ (if c.reachable then codes "ok" else codes "err"))
        (if c.reachable then codes "yes" else codes "no")
    ∷ toned (codes "chip " ++ (if c.flux_installed then codes "ok" else codes "warn"))
        (if c.flux_installed then codes "installed" else codes "missing")
    ∷ says (or_dash c.version)
    ∷ []

abbrev clusters_table : List Cluster → List (Piece Change)
clusters_table [] =
    says (
      codes
        "No clusters registered yet. In CRD mode, apply a yafu.io/v1alpha1.Cluster referencing a kubeconfig Secret. In file mode, set --config-file or --kubeconfig on the yafu binary.")
    ∷ []
clusters_table (c ∷ cs) = each cluster_row (c ∷ cs)

unfoldable pub fleet_panel : Query ClustersResponse → List (Piece Change)
unfolding each
fleet_panel q =
    says (codes "Registered clusters") ∷ says (fleet_meta q) ∷ clusters_table (clusters_of q.result)

unfoldable pub settings_page :
    Prefs
    → Query WhoamiResponse
    → Query (Entries Text)
    → Query ClustersResponse
    → List (Piece Change)
unfolding identity_panel build_panel preferences_panel fleet_panel
settings_page p me version clusters =
    says (codes "Settings")
    ∷ says (codes "Identity, runtime build, fleet, and personal preferences.")
    ∷ (identity_panel me ++ (build_panel version ++ (preferences_panel p ++ fleet_panel clusters)))

-- the actions of the buttons that are pressed
abbrev pub pressed : {A : Type 0} → List (Piece A) → List A
pressed [] = []
pressed (button b ∷ ps) = shown (or_else b.pressed false) (b.on_click ∷ []) ++ pressed ps
pressed (_ ∷ ps) = pressed ps
