-- ===== src/Queries/Bulk.antt =====
-- web/src/lib/queries.ts, useReconcileAllApps: every application is posted, and the errors counted
-- when all of the calls have settled.
use yafu.Base.{
  ◌&&◌, is_some, if◌then◌else◌, ℕ, suc, Bool, true, false, Option, none, some, List, [], ◌∷◌, ◌++◌,
  Text, codes, decimal, length, keep,
}
use yafu.ApiTypes.{Application}
use yafu.Queries.Mutations.{app_action_url, reconcile}

-- How a call of `fetchJSON` settles; a rejection has the error's message.
pub data Settled : Type 0 where
  fulfilled : Settled
  rejected : Text → Settled

abbrev pub is_rejected : Settled → Bool
is_rejected fulfilled = false
is_rejected (rejected m) = true

-- How the mutation ends. `uri_error` is thrown while the calls are made.
pub data Ending : Type 0 where
  reconciled : ℕ → Ending
  failed : Text → Ending
  uri_error : Ending

abbrev pub post_first : Option Text → List Text → List Text
post_first none rest = []
post_first (some u) rest = u ∷ rest

-- The URLs in the order of the calls, up to the first that cannot be built.
unfoldable pub posted : List Application → List Text
posted [] = []
posted (a ∷ as') = let rest = posted as' in post_first (app_action_url a reconcile) rest

abbrev pub message_of : Settled → Text
message_of fulfilled = []
message_of (rejected m) = m

abbrev pub failure : ℕ → ℕ → Text → Text
failure n total reason =
    decimal n ++ (codes " of " ++ (decimal total ++ (codes " reconciles failed: " ++ reason)))

abbrev pub ending : ℕ → List Settled → Ending
ending total [] = reconciled total
ending total (r ∷ rs) = failed (failure (suc (length rs)) total (message_of r))

-- The results of `Promise.allSettled`, in the order of the calls.
unfoldable pub conclude : ℕ → List Settled → Ending
conclude total results = ending total (keep is_rejected results)

abbrev pub can_build : List Application → Bool
can_build [] = true
can_build (a ∷ as') = is_some (app_action_url a reconcile) && can_build as'

-- How the calls settle, in their order: `post` says it of the number of a call and its URL.
unfoldable pub settled : (ℕ → Text → Settled) → List Text → List Settled
settled post [] = []
settled post (u ∷ us) = post 0 u ∷ settled (λ i. post (suc i)) us

module _ (post : ℕ → Text → Settled) where
  unfoldable pub reconcile_all : List Application → Ending
  unfolding conclude posted settled
  reconcile_all apps =
      if can_build apps then conclude (length apps) (settled post (posted apps)) else uri_error
