-- ===== src/Pages/Images.antt =====
-- web/src/pages/Images.tsx: the image policies, their counts and their rows.
use yafu.Base.{
  ℕ, ltb, ◌==◌, Bool, true, false, ◌&&◌, Option, none, some, or_else, List, [], ◌∷◌, ◌++◌, Text,
  codes, decimal, truthy, keep, length, if◌then◌else◌,
}
use yafu.ApiTypes.{ClusterError, ImageStatus, ImageUpdate, ImageUpdatesResponse}
use yafu.Markup.{
  is_empty, Piece, says, toned, dot, icon, row, shown, if_text, or_text, each, Query, listing,
  action_failed, partial_fan_out,
}
use yafu.Pages.Rows.{RowAction, Calls, last_error, row_buttons}

abbrev pub updates_of : Option ImageUpdatesResponse → List ImageUpdate
updates_of none = []
updates_of (some d) = d.updates

abbrev pub image_errors : Option ImageUpdatesResponse → List ClusterError
image_errors none = []
image_errors (some d) = or_else d.errors []

abbrev is_ready : ImageStatus → Bool
is_ready ImageStatus.ready = true
is_ready _ = false

abbrev is_failing : ImageStatus → Bool
is_failing ImageStatus.failing = true
is_failing _ = false

abbrev pub ready_count : List ImageUpdate → ℕ
ready_count us = length (keep (λ u. is_ready u.status && truthy (or_else u.latest_tag [])) us)

abbrev pub failing_count : List ImageUpdate → ℕ
failing_count us = length (keep (λ u. is_failing u.status) us)

abbrev pub suspended_count : List ImageUpdate → ℕ
suspended_count us = length (keep (λ u. u.suspended) us)

-- ` · ${n} word`, where `n > 0`
abbrev pub counted : ℕ → Text → Text
counted n word = if ltb 0 n then codes " · " ++ (decimal n ++ (codes " " ++ word)) else []

unfoldable pub images_meta : List ImageUpdate → Text
images_meta us =
    decimal (length us)
    ++ (codes " ImagePolic"
        ++ ((if length us == 1 then codes "y" else codes "ies")
            ++ (counted (failing_count us) (codes "failing")
                ++ (counted (ready_count us) (codes "resolved")
                    ++ counted (suspended_count us) (codes "paused")))))

abbrev pub image_dot : ImageStatus → Text
image_dot ImageStatus.failing = codes "var(--err)"
image_dot ImageStatus.progressing = codes "var(--info)"
image_dot ImageStatus.paused = codes "var(--paused)"
image_dot ImageStatus.ready = codes "var(--ok)"

abbrev pub suspended_mark : {A : Type 0} → Bool → List (Piece A)
suspended_mark suspended =
    shown suspended (icon (codes "pause") ∷ toned (codes "chip paused") (codes "Suspended") ∷ [])

abbrev tag_text : Option Text → Text
tag_text none = codes "—"
tag_text (some t) = if truthy t then codes "↗ " ++ t else codes "—"

unfoldable pub image_row : Calls ImageUpdate → ImageUpdate → List (Piece (RowAction ImageUpdate))
unfolding row_buttons
image_row calls u =
    row false none
    ∷ dot (image_dot u.status)
    ∷ says u.name
    ∷ says u.ns
    ∷ (suspended_mark u.suspended
        ++ (shown (is_failing u.status) (if_text u.message (λ m. says m ∷ []))
            ++ (says u.cluster
                ∷ toned (if truthy u.image then codes "var(--ink-2)" else codes "var(--err)")
                    (or_text u.image (codes "missing ImageRepository"))
                ∷ says (tag_text u.latest_tag)
                ∷ says (or_text u.policy (codes "—"))
                ∷ says u.age
                ∷ row_buttons (λ x. x.id) u.name u.suspended calls u)))

unfoldable pub images_page :
    Query ImageUpdatesResponse → Calls ImageUpdate → List (Piece (RowAction ImageUpdate))
unfolding images_meta image_row
images_page q calls =
    let updates = updates_of q.result in
    says (codes "Image Updates")
    ∷ says (images_meta updates)
    ∷ says (
        codes
          "ImagePolicies (image-reflector-controller) joined with their referenced ImageRepositories.")
    ∷ (action_failed (last_error calls)
        ++ (partial_fan_out (image_errors q.result)
            ++ listing (codes "Loading image policies…") (codes "No ImagePolicies")
                (some (
                  codes
                    "Either Flux's image automation is not installed on any registered cluster, or no ImagePolicies have been created yet."))
                q.is_loading q.error (is_empty updates) (each (image_row calls) updates)))
