-- ===== src/Apps/Blank.antt =====
-- web/src/pages/Apps.tsx: when nothing stands under the filters.
use yafu.Base.{
  ◌≡◌, ◌&&◌, not, ◌↔◌, refl, Bool, true, false, Option, none, some, List, [], ◌∷◌, ◌++◌, Text,
}
use yafu.ApiTypes.{Application, ApplicationsResponse, Cluster}
use yafu.Apps.{AppsState, filtered}
use yafu.Apps.View.{apps_body, apps_table, apps_of}
use yafu.Markup.{is_empty, if_some, shown, Piece, Query, loading_state, error_state, empty_state}
use yafu.Pages.Rows.{Calls}

module _ {A : Type 0} (w n t : Piece A) (ws ns ts : List (Piece A)) where
  abbrev parts : Bool → Bool → Option Text → List Application → List (Piece A)
  parts loading empty error rows =
      shown (loading && empty) (w ∷ ws)
      ++ (if_some error error_state
          ++ (shown (not loading && ((elim error [ none ↦ true | some _ ↦ false ]) && empty))
                (n ∷ ns)
              ++ shown (not (is_empty rows)) (t ∷ ts)))

  blank_parts :
      (loading empty : Bool) (error : Option Text) (rows : List Application)
      → parts loading empty error rows ≡ []
      → (empty ≡ false) × (rows ≡ []) × (error ≡ none)
  unfolding error_state
  blank_parts true true error rows h = cc
  blank_parts false true none rows h = cc
  blank_parts false true (some m) rows h = cc
  blank_parts true false (some m) rows h = cc
  blank_parts false false (some m) rows h = cc
  blank_parts true false none [] h = (refl, refl, refl)
  blank_parts false false none [] h = (refl, refl, refl)
  blank_parts true false none (a ∷ rows) h = cc
  blank_parts false false none (a ∷ rows) h = cc

  parts_blank :
      (loading empty : Bool) (error : Option Text) (rows : List Application)
      → (empty ≡ false) × (rows ≡ []) × (error ≡ none)
      → parts loading empty error rows ≡ []
  parts_blank true false none [] h = refl
  parts_blank false false none [] h = refl
  parts_blank loading true error rows (h, _, _) = cc
  parts_blank loading false (some m) rows (_, _, h) = cc
  parts_blank loading false none (a ∷ rows) (_, h, _) = cc

-- The page is blank under its filters exactly when there are applications, the filters let none of
-- them through, and the query has no error: then no text says that nothing matches.
pub apps_body-nil_iff :
    (lower : Text → Text) (st : AppsState) (calls : Calls Application)
    (q : Query ApplicationsResponse) (clusters : List Cluster)
    → (apps_body lower st calls q clusters ≡ []) ↔ (
        (is_empty (apps_of q.result) ≡ false)
        × (filtered lower (apps_of q.result) st ≡ [])
        × (q.error ≡ none))
unfolding apps_body apps_table loading_state error_state empty_state
apps_body-nil_iff lower st calls q clusters = (
  blank_parts _ _ _ _ _ _ q.is_loading (is_empty (apps_of q.result)) q.error
      (filtered lower (apps_of q.result) st),
  parts_blank _ _ _ _ _ _ q.is_loading (is_empty (apps_of q.result)) q.error
      (filtered lower (apps_of q.result) st),
)
