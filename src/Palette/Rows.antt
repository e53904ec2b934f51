-- ===== src/Palette/Rows.antt =====
-- web/src/components/Topbar.tsx: the rows of the palette and their keys, and the buttons of the bar.
use yafu.Base.{
  Bool, ◌&&◌, ◌||◌, not, Option, none, some, List, [], ◌∷◌, ◌++◌, Text, codes, ◌=t◌, truthy,
  if◌then◌else◌,
}
use yafu.ApiTypes.{AppKind, Application}
use yafu.Palette.{CommandItem, page, app, source, cluster}
use yafu.Shell.{PageId}

-- itemKey
unfoldable pub item_key : (PageId → Text) → CommandItem → Text
item_key page_text (page id label hint) = codes "page:" ++ page_text id
item_key page_text (app a) = codes "app:" ++ a.id
item_key page_text (source c ns name kind) =
    codes "src:" ++ c ++ codes "/" ++ ns ++ codes "/" ++ name
item_key page_text (cluster id name status) = codes "clu:" ++ id

-- shortSourceKind
unfoldable pub short_source_kind : (Text → Text) → Text → Text
short_source_kind lower k =
    if k =t codes "GitRepository"
    then codes "git"
    else if k =t codes "HelmRepository"
    then codes "helm"
    else if k =t codes "OCIRepository"
    then codes "oci"
    else if k =t codes "Bucket"
    then codes "bucket"
    else lower k

-- ItemRow: the badge, the title and the subtitle of a row.
pub record Row : Type 0 where
  pub tone : Text
  pub badge : Text
  pub title : Text
  pub subtitle : Text

abbrev pub place : Text → Text → Text
place c ns = c ++ codes " / " ++ ns

abbrev pub kind_tone : AppKind → Text
kind_tone AppKind.helm_release = codes "warn"
kind_tone AppKind.kustomization = codes "info"

abbrev pub kind_badge_text : AppKind → Text
kind_badge_text AppKind.helm_release = codes "helm"
kind_badge_text AppKind.kustomization = codes "kust"

unfoldable pub item_row : (Text → Text) → CommandItem → Row
unfolding short_source_kind
item_row lower (page id label hint) = record {
  tone = codes "info";
  badge = codes "page";
  title = label;
  subtitle = hint;
}
item_row lower (app a) = record {
  tone = kind_tone a.kind;
  badge = kind_badge_text a.kind;
  title = a.name;
  subtitle = place a.cluster a.ns ++ (if truthy a.source then codes " · " ++ a.source else []);
}
item_row lower (source c ns name kind) = record {
  tone = codes "ok";
  badge = short_source_kind lower kind;
  title = name;
  subtitle = place c ns;
}
item_row lower (cluster id name status) = record {
  tone =
      if status =t codes "healthy"
      then codes "ok"
      else if status =t codes "degraded"
      then codes "warn"
      else codes "err";
  badge = codes "cluster";
  title = name;
  subtitle = status;
}

-- Topbar: the key that opens and closes the palette, and what the button posts.
abbrev pub on_global_key : Bool → Bool → Text → Bool → Bool
on_global_key meta_key ctrl_key key palette_open =
    if (meta_key || ctrl_key) && (key =t codes "k" || key =t codes "K")
    then not palette_open
    else palette_open

abbrev pub on_reconcile_all : List Application → Option (List Application)
on_reconcile_all [] = none
on_reconcile_all (a ∷ as') = some (a ∷ as')
