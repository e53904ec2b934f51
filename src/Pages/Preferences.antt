-- ===== src/Pages/Preferences.antt =====
-- web/src/pages/Settings.tsx with App.tsx: the preferences that are pressed are those that are set.
use yafu.Base.{
  sym, subst, ◌≡◌, refl, ap, ◌∙◌, List, [], ◌∷◌, ◌++◌, codes, ◌=t◌, In, inl, inr, arith,
}
use yafu.Markup.{clickable, shown}
use yafu.Shell.{
  Theme, Density, SidebarMode, Prefs, Change, changed, to_theme, to_density, to_sidebar, to_page,
  to_layout, to_cluster,
}
use yafu.Pages.Settings.{preferences_panel, pressed, theme_text, density_text, sidebar_text}

theme_part :
    (t : Theme) (rest : List Change)
    → shown (theme_text t =t codes "light") (to_theme Theme.light ∷ [])
        ++ (shown (theme_text t =t codes "dark") (to_theme Theme.dark ∷ []) ++ rest)
      ≡ to_theme t ∷ rest
unfolding ◌=t◌
theme_part Theme.light rest = refl
theme_part Theme.dark rest = refl

density_part :
    (d : Density) (rest : List Change)
    → shown (density_text d =t codes "compact") (to_density Density.compact ∷ [])
        ++ (shown (density_text d =t codes "comfortable") (to_density Density.comfortable ∷ [])
            ++ rest)
      ≡ to_density d ∷ rest
unfolding ◌=t◌
density_part Density.compact rest = refl
density_part Density.comfortable rest = refl

sidebar_part :
    (m : SidebarMode)
    → shown (sidebar_text m =t codes "labeled") (to_sidebar SidebarMode.labeled ∷ [])
        ++ (shown (sidebar_text m =t codes "icons") (to_sidebar SidebarMode.icons ∷ [])
            ++ (shown (sidebar_text m =t codes "collapsed") (to_sidebar SidebarMode.collapsed ∷ [])
                ++ []))
      ≡ to_sidebar m ∷ []
unfolding ◌=t◌
sidebar_part SidebarMode.labeled = refl
sidebar_part SidebarMode.icons = refl
sidebar_part SidebarMode.collapsed = refl

pub pressed-preferences_panel :
    (p : Prefs)
    → pressed (preferences_panel p)
      ≡ to_theme p.theme ∷ to_density p.density ∷ to_sidebar p.sidebar ∷ []
unfolding preferences_panel
pressed-preferences_panel p =
    theme_part p.theme _
    ∙ ap (λ cs. to_theme p.theme ∷ cs)
        (density_part p.density _ ∙ ap (λ cs. to_density p.density ∷ cs) (sidebar_part p.sidebar))

-- the three changes that the page makes are those of the pressed buttons afterwards
abbrev IsSetting : Change → Type 0
IsSetting (to_theme v) = Unit {0}
IsSetting (to_density v) = Unit {0}
IsSetting (to_sidebar v) = Unit {0}
IsSetting _ = ⊥

is_set :
    (p : Prefs) (c : Change)
    → IsSetting c
    → In c (
        to_theme (changed c p).theme
        ∷ to_density (changed c p).density
        ∷ to_sidebar (changed c p).sidebar
        ∷ [])
is_set p (to_theme v) h = inl refl
is_set p (to_density v) h = inr (inl refl)
is_set p (to_sidebar v) h = inr (inr (inl refl))
is_set p (to_page v) h = elim h [ ]
is_set p (to_layout v) h = elim h [ ]
is_set p (to_cluster v) h = elim h [ ]

offered : (p : Prefs) (c : Change) → In c (clickable (preferences_panel p)) → IsSetting c
unfolding preferences_panel
offered p (to_theme v) h = tt
offered p (to_density v) h = tt
offered p (to_sidebar v) h = tt
offered p (to_page v) h = absurd (ground (arith, h))
offered p (to_layout v) h = absurd (ground (arith, h))
offered p (to_cluster v) h = absurd (ground (arith, h))

-- A click on a button of the preferences changes the preferences such that the button is the pressed
-- one of its group: what is pressed then is the change that was made, and the other two values as
-- they were.
pub pressed-changed :
    (p : Prefs) (c : Change)
    → In c (clickable (preferences_panel p))
    → In c (pressed (preferences_panel (changed c p)))
      × (pressed (preferences_panel (changed c p))
          ≡ to_theme (changed c p).theme
            ∷ to_density (changed c p).density
            ∷ to_sidebar (changed c p).sidebar
            ∷ [])
pressed-changed p c h = (
  subst (In c) (sym (pressed-preferences_panel (changed c p))) (is_set p c (offered p c h)),
  pressed-preferences_panel (changed c p),
)
