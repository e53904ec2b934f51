-- ===== src/AppDetail/Rollback.antt =====
-- web/src/pages/AppDetail.tsx, HistoryTab: what a rollback can aim at.
use yafu.Base.{
  ap, ◌&&◌, truthy, Bool-cases, arith, true, Bool, some, ◌≡◌, false, Option, none, List, Text, In,
  inl, inr,
}
use yafu.ApiTypes.{Application, AppHistoryEntry}
use yafu.Markup.Clicks.{In-clickable-each}
use yafu.Markup.{clickable, each}
use yafu.AppDetail.HistoryTab.{
  pick, question, RollbackVars, is_helm, is_selectable, on_rollback, HistoryAction, entry_row,
  on_history_action,
}

module _ (locale_time : Text → Option Text) (app : Application)
    (entries : List AppHistoryEntry) where
  -- The revision that is selected, as clicks on the rows and the button lead to it while the entries
  -- stay the same.
  pub data Reaches : Option Text → Type 0 where
    opens : Reaches none
    clicks :
        (a : HistoryAction) (selected : Option Text)
        → Reaches selected
        → In a (clickable (each (entry_row locale_time app entries selected) entries))
        → Reaches (on_history_action a selected)

  -- The revision of an entry that is not the current one.
  abbrev pub IsPrevious : Text → Type 0
  IsPrevious r = (e : AppHistoryEntry) × In e entries × (e.current ≡ false) × (e.revision ≡ r)

  -- A row offers its revision, and only if it can be selected.
  row_offers :
      (selected : Option Text) (e : AppHistoryEntry) (a : HistoryAction)
      → In a (clickable (entry_row locale_time app entries selected e))
      → (a ≡ pick e.revision) × (is_selectable app entries e ≡ true)
  unfolding entry_row
  row_offers selected e a h = elim (Bool-cases (is_selectable app entries e)) [
    | inl s ↦ elim (Bool-cases e.current) [ inl c ↦ ground (arith, h) | inr c ↦ ground (arith, h) ]
    | inr s ↦ elim (Bool-cases e.current) [ inl c ↦ ground (arith, h) | inr c ↦ ground (arith, h) ]
  ]

  selectable_lem :
      (e : AppHistoryEntry)
      → is_selectable app entries e ≡ true
      → (is_helm app ≡ true) × (e.current ≡ false)
  selectable_lem e h = ground (arith, h)

  -- Whatever the clicks, the revision that is selected is the one of a listed entry that is not
  -- current, and the application is a Helm release.
  Reaches-IsPrevious :
      (r : Text) (selected : Option Text)
      → Reaches selected
      → selected ≡ some r
      → (is_helm app ≡ true) × IsPrevious r
  Reaches-IsPrevious r _ opens h = cc
  Reaches-IsPrevious r _ (clicks a selected before offered) h =
      let (e, i, o) =
        In-clickable-each (entry_row locale_time app entries selected) entries a offered in
      let (p, s) = row_offers selected e a o in
      let (k, c) = selectable_lem e s in
      let q : on_history_action (pick e.revision) selected ≡ some r = rw p at h in
      (k, (e, i, c, cc))

  on_rollback_lem :
      (confirm : Text → Bool) (selected : Option Text) (v : RollbackVars)
      → on_rollback confirm app selected ≡ some v
      → (app ≡ v.app) × (selected ≡ some v.revision) × (confirm (question app v.revision) ≡ true)
  unfolding on_rollback
  on_rollback_lem confirm none v h = cc
  on_rollback_lem confirm (some r) v h = elim (Bool-cases (truthy r && confirm (question app r))) [
    | inl e ↦ asked e (rw e at h)
    | inr e ↦ let none_some : none ≡ some v = rw e at h in cc
  ]
    where
      asked :
          (truthy r && confirm (question app r)) ≡ true
          → some (record { app = app; revision = r }) ≡ some v
          → (app ≡ v.app) × (some r ≡ some v.revision) × (confirm (question app v.revision) ≡ true)
      asked e q =
          let same : record { app = app; revision = r } ≡ v = cc in
          let named : r ≡ v.revision = ap (λ (w : RollbackVars). w.revision) same in
          let answer : confirm (question app r) ≡ true = ground (arith, e) in
          (ap (λ (w : RollbackVars). w.app) same, ap some named, rw (← named) answer)

  -- With the entries and the application left as they are, a rollback that the page asks for, after
  -- any clicks on the rows, is of a Helm release, to the revision of a listed entry that is not
  -- current, and the user has confirmed it for that revision.
  pub rollback-IsPrevious :
      (confirm : Text → Bool) (selected : Option Text) (v : RollbackVars)
      → Reaches selected
      → on_rollback confirm app selected ≡ some v
      → (is_helm v.app ≡ true)
        × IsPrevious v.revision
        × (confirm (question v.app v.revision) ≡ true)
  unfolding on_rollback
  rollback-IsPrevious confirm selected v reached h =
      let (same, s, answer) = on_rollback_lem confirm selected v h in
      let (k, previous) = Reaches-IsPrevious v.revision selected reached s in
      (rw (← same) k, previous, rw (← same) answer)
