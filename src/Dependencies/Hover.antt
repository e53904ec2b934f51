-- ===== src/Dependencies/Hover.antt =====
-- web/src/pages/Dependencies.tsx: while a card is hovered, cards and edges agree.
use yafu.Base.{
  ◌≡◌, ◌↔◌, refl, Bool, true, false, ◌&&◌, not, Bool-cases, some, List, Text, ◌=t◌, =t_eq, =t_refl,
  any, any-In, In-any, In, arith, inl, inr,
}
use yafu.DepGraph.{DepEdge}
use yafu.Dependencies.{Card, CardKind, same_kind, end_of, dimmed, edge_style, is_adjacent}

same_kind_refl : (k : CardKind) → same_kind k k ≡ true
same_kind_refl CardKind.source = refl
same_kind_refl CardKind.app = refl

both : (a b : Bool) → (a && b) ≡ true → (a ≡ true) × (b ≡ true)
both a b h = ground arith

module _ (edges : List DepEdge) (hover : Card) where
  -- The card at an end of an edge is bright where the edge is at the hovered card.
  adjacent-bright :
      (kind : CardKind) (e : DepEdge)
      → In e edges
      → is_adjacent (some hover) e ≡ true
      → dimmed edges (some hover) kind (end_of kind e) ≡ false
  unfolding dimmed
  adjacent-bright kind e i h =
      elim (Bool-cases (same_kind hover.kind kind && hover.id =t end_of kind e)) [
        | inl t ↦ rw t refl
        | inr t ↦ rw (t, found) refl
      ]
    where
      found :
          any (λ x. end_of hover.kind x =t hover.id && end_of kind x =t end_of kind e) edges ≡ true
      found = In-any _ e edges i (rw (h, =t_refl (end_of kind e)) refl)

  -- On the hovered side only the hovered card is bright.
  bright-own :
      (id : Text) → dimmed edges (some hover) hover.kind id ≡ false → (id =t hover.id) ≡ true
  unfolding dimmed
  bright-own id h = elim (Bool-cases (hover.id =t id)) [
    | inl t ↦ rw (=t_eq hover.id id t) (=t_refl id)
    | inr t ↦ from (rw (same_kind_refl hover.kind, t) at h)
  ]
    where
      from :
          not (any (λ x. end_of hover.kind x =t hover.id && end_of hover.kind x =t id) edges)
            ≡ false
          → (id =t hover.id) ≡ true
      from q =
          let (x, _, e) =
            any-In (λ x. end_of hover.kind x =t hover.id && end_of hover.kind x =t id) edges
              (ground arith) in
          let (a, b) = both (end_of hover.kind x =t hover.id) (end_of hover.kind x =t id) e in
          rw (← =t_eq _ _ a, =t_eq _ _ b) (=t_refl id)

  bright_end :
      (kind : CardKind) (e : DepEdge)
      → dimmed edges (some hover) CardKind.source e.source_id ≡ false
      → dimmed edges (some hover) CardKind.app e.app_id ≡ false
      → dimmed edges (some hover) kind (end_of kind e) ≡ false
  bright_end CardKind.source e h k = h
  bright_end CardKind.app e h k = k

  -- While a card is hovered, an edge of the graph is drawn in full exactly when neither of its two
  -- cards is dimmed.
  pub edge_style-bright :
      (e : DepEdge)
      → In e edges
      → ((edge_style (some hover) e).opacity ≡ 100) ↔ (
          (dimmed edges (some hover) CardKind.source e.source_id ≡ false)
          × (dimmed edges (some hover) CardKind.app e.app_id ≡ false))
  unfolding edge_style
  edge_style-bright e i = (forward, backward)
    where
      adjacent : (edge_style (some hover) e).opacity ≡ 100 → is_adjacent (some hover) e ≡ true
      adjacent h = elim (Bool-cases (is_adjacent (some hover) e)) [
        | inl t ↦ t
        | inr t ↦ absurd (omega (arith, rw t at h))
      ]

      forward :
          (edge_style (some hover) e).opacity ≡ 100
          → (dimmed edges (some hover) CardKind.source e.source_id ≡ false)
            × (dimmed edges (some hover) CardKind.app e.app_id ≡ false)
      forward h = (
        adjacent-bright CardKind.source e i (adjacent h),
        adjacent-bright CardKind.app e i (adjacent h),
      )

      backward :
          (dimmed edges (some hover) CardKind.source e.source_id ≡ false)
            × (dimmed edges (some hover) CardKind.app e.app_id ≡ false)
          → (edge_style (some hover) e).opacity ≡ 100
      backward (h, k) =
          let t = bright-own (end_of hover.kind e) (bright_end hover.kind e h k) in rw t refl
