-- ===== src/Markup/Clicks.antt =====
-- What can be clicked in a view that is made of parts.
use yafu.Base.{
  ◌≡◌, refl, sym, ap, ◌∙◌, not, none, some, List, [], ◌∷◌, ◌++◌, append_assoc, In, inl, inr, ◌⊎◌,
}
use yafu.Markup.{
  Piece, clickable, each, shown, says, toned, dot, icon, button, link, input, select, checkbox, row,
}

In-append : {A : Type 0} (a : A) (xs ys : List A) → In a (xs ++ ys) → In a xs ⊎ In a ys
In-append a [] ys h = inr h
In-append a (x ∷ xs) ys (inl e) = inl (inl e)
In-append a (x ∷ xs) ys (inr h) = elim (In-append a xs ys h) [ inl i ↦ inl (inr i) | inr i ↦ inr i ]

module _ {A : Type 0} where
  pub clickable-append :
      (ps qs : List (Piece A)) → clickable (ps ++ qs) ≡ clickable ps ++ clickable qs
  clickable-append [] qs = refl
  clickable-append (says _ ∷ ps) qs = clickable-append ps qs
  clickable-append (toned _ _ ∷ ps) qs = clickable-append ps qs
  clickable-append (dot _ ∷ ps) qs = clickable-append ps qs
  clickable-append (icon _ ∷ ps) qs = clickable-append ps qs
  clickable-append (button b ∷ ps) qs =
      ap (λ t. shown (not b.disabled) (b.on_click ∷ []) ++ t) (clickable-append ps qs)
      ∙ sym (append_assoc (shown (not b.disabled) (b.on_click ∷ [])) (clickable ps) (clickable qs))
  clickable-append (link _ _ ∷ ps) qs = clickable-append ps qs
  clickable-append (input _ _ _ ∷ ps) qs = clickable-append ps qs
  clickable-append (select _ _ _ ∷ ps) qs = clickable-append ps qs
  clickable-append (checkbox _ on d f ∷ ps) qs =
      ap (λ t. shown (not d) (f (not on) ∷ []) ++ t) (clickable-append ps qs)
      ∙ sym (append_assoc (shown (not d) (f (not on) ∷ [])) (clickable ps) (clickable qs))
  clickable-append (row _ none ∷ ps) qs = clickable-append ps qs
  clickable-append (row _ (some a) ∷ ps) qs = ap (λ t. a ∷ t) (clickable-append ps qs)

-- What can be clicked in a list of rows can be clicked in one of them.
pub In-clickable-each :
    {A : Type 0} {B : Type 0} (f : B → List (Piece A)) (xs : List B) (a : A)
    → In a (clickable (each f xs))
    → (x : B) × In x xs × In a (clickable (f x))
unfolding each
In-clickable-each f [] a h = elim h [ ]
In-clickable-each f (x ∷ xs) a h =
    elim (In-append a (clickable (f x)) (clickable (each f xs))
      (rw (clickable-append (f x) (each f xs)) at h)) [
        | inl i ↦ (x, inl refl, i)
        | inr i ↦ let (y, j, k) = In-clickable-each f xs a i in (y, inr j, k)
      ]
