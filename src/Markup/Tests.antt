-- ===== src/Markup/Tests.antt =====
-- Runs of the shared parts of the views.
use yafu.Base.{◌≡◌, refl, true, none, [], ◌∷◌, codes}
use yafu.Markup.{says, listing, loading_state, error_state, empty_state, icon, ChipAction}

listing_waits :
    listing {A = ChipAction}
      (codes "Loading")
      (codes "No rows")
      none
      true
      none
      true
      (says (codes "row") ∷ [])
    ≡ icon (codes "spinner") ∷ says (codes "Loading") ∷ []
unfolding listing loading_state error_state empty_state
listing_waits = refl
