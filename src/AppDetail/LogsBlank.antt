-- ===== src/AppDetail/LogsBlank.antt =====
-- web/src/pages/AppDetail.tsx, LogsTab: when the pane of the log has no text at all.
use yafu.Base.{
  inr, subst, inl, Bool-cases, append_assoc, sym, ◌∙◌, ap, ◌≢◌, or_else, ◌≡◌, refl, Bool, true,
  false, Option, none, some, is_some, List, [], ◌∷◌, ◌++◌, Text, codes, truthy, join, ◌↔◌, ◌&&◌,
  not,
}
use yafu.ApiTypes.{LogsResponse}
use yafu.Markup.{
  row, checkbox, select, input, link, button, icon, dot, Piece, says, toned, is_empty, shown,
  if_some, if_text, or_text, Query,
}
use yafu.AppDetail.{LogState}
use yafu.AppDetail.LogsTab.{
  LogsTab, LogsAction, pods_of, logs_text, note_text, log_notices, live_body, logs_body,
}

-- The text that the pieces show, one after the other.
abbrev pub text_of : {A : Type 0} → List (Piece A) → Text
text_of [] = []
text_of (says t ∷ ps) = t ++ text_of ps
text_of (toned _ t ∷ ps) = t ++ text_of ps
text_of (_ ∷ ps) = text_of ps

-- The query has settled without an error, and found no pod.
abbrev pub no_pod_found : Query LogsResponse → Bool
no_pod_found q = not q.is_loading && (not (is_some q.error) && is_empty (pods_of q.result))

module _ {A : Type 0} where
  text_of-append : (xs ys : List (Piece A)) → text_of (xs ++ ys) ≡ text_of xs ++ text_of ys
  text_of-append [] ys = refl
  text_of-append (says t ∷ xs) ys =
      ap (λ s. t ++ s) (text_of-append xs ys) ∙ sym (append_assoc t (text_of xs) (text_of ys))
  text_of-append (toned c t ∷ xs) ys =
      ap (λ s. t ++ s) (text_of-append xs ys) ∙ sym (append_assoc t (text_of xs) (text_of ys))
  text_of-append (dot c ∷ xs) ys = text_of-append xs ys
  text_of-append (icon c ∷ xs) ys = text_of-append xs ys
  text_of-append (button b ∷ xs) ys = text_of-append xs ys
  text_of-append (link h t ∷ xs) ys = text_of-append xs ys
  text_of-append (input l v f ∷ xs) ys = text_of-append xs ys
  text_of-append (select v os f ∷ xs) ys = text_of-append xs ys
  text_of-append (checkbox l v d f ∷ xs) ys = text_of-append xs ys
  text_of-append (row s a ∷ xs) ys = text_of-append xs ys

nil_both : (s t : Text) → s ++ t ≡ [] → (s ≡ []) × (t ≡ [])
nil_both [] t h = (refl, h)
nil_both (c ∷ s) t h = cc

abbrev notices :
    (loading live nopods : Bool) (err : Option Text) (logs note : Text) → List (Piece LogsAction)
notices loading live nopods err logs note =
    shown (loading && (not (truthy logs) && not live)) (says (codes "Loading…") ∷ [])
    ++ (if_some err (λ e. shown (not live) (says (codes "error: " ++ e) ∷ []))
        ++ (shown (not loading && (not (is_some err) && nopods)) (
              says (
                or_text note
                  (codes "No pods matched this application in its inventory namespaces."))
              ∷ [])
            ++ (shown (not live && truthy logs) (says logs ∷ [])
                ++ shown (not live && (not (truthy logs) && (not nopods && not loading)))
                    (says (codes "# selected pod produced no log lines yet") ∷ []))))

still_notices :
    (loading nopods : Bool) (err : Option Text) (logs note : Text)
    → text_of (notices loading false nopods err logs note) ≢ []
still_notices true nopods (some e) [] note h = cc
still_notices true nopods none [] note h = cc
still_notices true nopods (some e) (c ∷ l) note h = cc
still_notices true nopods none (c ∷ l) note h = cc
still_notices false nopods (some e) logs note h = cc
still_notices false true none logs [] h = cc
still_notices false true none logs (c ∷ n) h = cc
still_notices false false none [] note h = cc
still_notices false false none (c ∷ l) note h = cc

live_notices :
    (loading nopods : Bool) (err : Option Text) (logs note : Text)
    → (text_of (notices loading true nopods err logs note) ≡ [])
      ↔ ((not loading && (not (is_some err) && nopods)) ≡ false)
live_notices true nopods (some e) [] note = (λ h. refl, λ h. refl)
live_notices true nopods (some e) (c ∷ l) note = (λ h. refl, λ h. refl)
live_notices true nopods none [] note = (λ h. refl, λ h. refl)
live_notices true nopods none (c ∷ l) note = (λ h. refl, λ h. refl)
live_notices false nopods (some e) logs note = (λ h. refl, λ h. refl)
live_notices false true none logs [] = (λ h. cc, λ h. cc)
live_notices false true none logs (c ∷ n) = (λ h. cc, λ h. cc)
live_notices false false none logs note = (λ h. refl, λ h. refl)

live_blank :
    (s : LogState)
    → (text_of (live_body s) ≡ []) ↔ ((s.lines ≡ [] ∷ []) × (truthy (or_else s.error []) ≡ false))
unfolding live_body join
live_blank s = by s.lines s.error
  where
    by :
        (ls : List Text) (e : Option Text)
        → (text_of {A = LogsAction} (
              shown (is_empty ls) (says (codes "# waiting for live output…") ∷ [])
              ++ (shown (truthy (join (codes "\n") ls)) (says (join (codes "\n") ls) ∷ [])
                  ++ if_text e (λ m. says (codes "stream: " ++ m) ∷ [])))
            ≡ [])
          ↔ ((ls ≡ [] ∷ []) × (truthy (or_else e []) ≡ false))
    by [] e = (λ h. cc, λ h. cc)
    by ([] ∷ []) none = (λ h. (refl, refl), λ h. refl)
    by ([] ∷ []) (some []) = (λ h. (refl, refl), λ h. refl)
    by ([] ∷ []) (some (c ∷ m)) = (λ h. cc, λ h. cc)
    by ((c ∷ l) ∷ []) e = (λ h. cc, λ h. cc)
    by ([] ∷ l ∷ ls) e = (λ h. cc, λ h. cc)
    by ((c ∷ k) ∷ l ∷ ls) e = (λ h. cc, λ h. cc)

-- The pane of the log has no text exactly when it is live, the stream has sent one line and that line
-- is empty, the stream has no error to show, and the query does not say that no pod was found. In
-- every other state of the query, of the stream and of the choices it has some text, though a live
-- log of empty lines only has their line breaks.
pub logs_body-blank_iff :
    (st : LogsTab) (q : Query LogsResponse)
    → (text_of (logs_body st q) ≡ []) ↔ (
        (st.choice.live ≡ true)
        × (st.stream.lines ≡ [] ∷ [])
        × (truthy (or_else st.stream.error []) ≡ false)
        × (no_pod_found q ≡ false))
unfolding logs_body log_notices
logs_body-blank_iff st q = (forward, backward)
  where
    notices_at : Bool → Text
    notices_at live = text_of (
        notices q.is_loading live (is_empty (pods_of q.result)) q.error (logs_text q.result)
          (note_text q.result))

    tail_at : Bool → Text
    tail_at live = text_of (shown live (live_body st.stream))

    both : text_of (logs_body st q) ≡ notices_at st.choice.live ++ tail_at st.choice.live
    both = text_of-append (log_notices st q) (shown st.choice.live (live_body st.stream))

    forward :
        text_of (logs_body st q) ≡ []
        → (st.choice.live ≡ true)
          × (st.stream.lines ≡ [] ∷ [])
          × (truthy (or_else st.stream.error []) ≡ false)
          × (no_pod_found q ≡ false)
    forward h =
        let (n, b) = nil_both (notices_at st.choice.live) (tail_at st.choice.live) (sym both ∙ h) in
        elim (Bool-cases st.choice.live) [
          | inl live ↦
              let (lines, err) = (live_blank st.stream).0 (subst (λ l. tail_at l ≡ []) live b) in
              (
                live,
                lines,
                err,
                (live_notices q.is_loading (is_empty (pods_of q.result)) q.error
                      (logs_text q.result) (note_text q.result)).0
                    (subst (λ l. notices_at l ≡ []) live n),
              )
          | inr still ↦ absurd (
              still_notices q.is_loading (is_empty (pods_of q.result)) q.error (logs_text q.result)
                (note_text q.result) (subst (λ l. notices_at l ≡ []) still n))
        ]

    backward :
        (st.choice.live ≡ true)
          × (st.stream.lines ≡ [] ∷ [])
          × (truthy (or_else st.stream.error []) ≡ false)
          × (no_pod_found q ≡ false)
        → text_of (logs_body st q) ≡ []
    backward (live, lines, err, found) =
        both
        ∙ ap (λ l. notices_at l ++ tail_at l) live
        ∙ ap (λ s. s ++ tail_at true)
            ((live_notices q.is_loading (is_empty (pods_of q.result)) q.error (logs_text q.result)
                (note_text q.result)).1
              found)
        ∙ (live_blank st.stream).1 (lines, err)
