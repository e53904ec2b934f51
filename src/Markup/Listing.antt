-- ===== src/Markup/Listing.antt =====
-- What a list of a page or a tab shows in each state of its query.
use yafu.Base.{◌≡◌, ◌≢◌, refl, Bool, true, false, Option, none, some, List, [], ◌++◌, Text}
use yafu.Markup.{Piece, listing, loading_state, error_state, empty_state, if_some}

module _ {A : Type 0} (waiting title : Text) (hint : Option Text) (content : List (Piece A)) where
  -- A list with rows shows them whatever its query does, below the error of a refetch if there is
  -- one.
  pub listing_rows :
      (is_loading : Bool) (error : Option Text)
      → listing waiting title hint is_loading error false content
        ≡ if_some error error_state ++ content
  unfolding listing
  listing_rows true none = refl
  listing_rows true (some e) = refl
  listing_rows false none = refl
  listing_rows false (some e) = refl

  -- While a list has no rows, its content is never shown.
  pub listing_empty :
      (is_loading : Bool) (error : Option Text)
      → listing waiting title hint is_loading error true content
        ≡ listing waiting title hint is_loading error true []
  unfolding listing
  listing_empty is_loading error = refl

  -- A list is never blank: unless it has rows and no content for them, it shows something.
  pub listing-ne-nil :
      (is_loading : Bool) (error : Option Text) (empty : Bool)
      → content ≢ []
      → listing waiting title hint is_loading error empty content ≢ []
  unfolding listing loading_state error_state empty_state
  listing-ne-nil true none true h e = cc
  listing-ne-nil true (some m) true h e = cc
  listing-ne-nil false none true h e = cc
  listing-ne-nil false (some m) true h e = cc
  listing-ne-nil true none false h e = h e
  listing-ne-nil false none false h e = h e
  listing-ne-nil true (some m) false h e = cc
  listing-ne-nil false (some m) false h e = cc
