-- ===== src/Shell/Stored.antt =====
-- web/src/App.tsx: what is stored is what is loaded, and the chosen cluster exists.
use yafu.Base.{
  ◌≡◌, refl, sym, ap, Bool, true, false, ◌&&◌, Bool-cases, Option, none, some, List, ◌∷◌, Text,
  ◌=t◌, =t_eq, truthy, any-In, In, arith, inl, inr,
}
use yafu.ApiTypes.{Cluster}
use yafu.Shell.{
  Prefs, PartialPrefs, Codec, holds, load_prefs, save_prefs, App, Change, update, is_valid,
  reconcile_cluster, changed,
}

-- All the fields.
abbrev pub whole : Prefs → PartialPrefs
whole p = record {
  theme = some p.theme;
  density = some p.density;
  sidebar = some p.sidebar;
  page = some p.page;
  fleet_layout = some p.fleet_layout;
  cluster_id = some p.cluster_id;
}

-- What JSON promises: parsing what was written gives every field back, and an object's text is not
-- empty.
pub record IsJson (codec : Codec) : Type 0 where
  pub parsed_back : (p : Prefs) → (codec.parse) ((codec.stringify) p) ≡ some (whole p)
  pub not_empty : (p : Prefs) → truthy ((codec.stringify) p) ≡ true

module _ (codec : Codec) (json : IsJson codec) where
  load-save :
      (p : Prefs) (raw : Option Text) → load_prefs codec (save_prefs codec true p (holds raw)) ≡ p
  unfolding load_prefs save_prefs
  load-save p raw = rw (json.not_empty p, json.parsed_back p) refl

  -- Where the storage can be written and JSON reads back what it wrote, the preferences after a
  -- change are the ones that the next visit loads.
  pub load_prefs-update :
      (c : Change) (st : App) (raw : Option Text)
      → st.storage ≡ holds raw
      → load_prefs codec (update codec true c st).storage ≡ (update codec true c st).prefs
  unfolding update
  load_prefs-update c st raw e = rw e (load-save (changed c st.prefs) raw)

-- After the effect over a list of clusters that is not empty, the chosen cluster is one of them,
-- and it is the one chosen before where that was in the list and its id is not empty.
pub reconcile_cluster-chosen :
    (codec : Codec) (writable : Bool) (c : Cluster) (cs : List Cluster) (st : App)
    → let u = reconcile_cluster codec writable (c ∷ cs) st in
      ((d : Cluster) × In d (c ∷ cs) × (u.prefs.cluster_id ≡ some d.id))
      × (is_valid (c ∷ cs) st.prefs.cluster_id ≡ true → u ≡ st)
unfolding reconcile_cluster update
reconcile_cluster-chosen codec writable c cs st =
    elim (Bool-cases (is_valid (c ∷ cs) st.prefs.cluster_id)) [
      | inl e ↦ rw e (chosen st.prefs.cluster_id e, λ h. refl)
      | inr e ↦ rw e ((c, inl refl, refl), λ h. absurd (clash h))
    ]
  where
    clash : false ≡ true → ⊥
    clash q = cc

    chosen :
        (o : Option Text)
        → is_valid (c ∷ cs) o ≡ true
        → (d : Cluster) × In d (c ∷ cs) × (o ≡ some d.id)
    chosen none h = cc
    chosen (some id) h =
        let (d, i, e) = any-In (λ x. x.id =t id) (c ∷ cs) (second (truthy id) _ h) in
        (d, i, ap some (sym (=t_eq d.id id e)))
      where
        second : (a b : Bool) → (a && b) ≡ true → b ≡ true
        second a b q = ground arith
