-- ===== src/AppDetail/Layouts.antt =====
-- web/src/pages/AppDetail.tsx, SplitDiff and UnifiedDiff: the two layouts show the same lines.
use yafu.Base.{arith, All, ◌≡◌, refl, ap, ap₂, true, List, [], ◌∷◌, map, Text, keep}
use yafu.ApiTypes.{RenderLine, RenderHunk, RenderResource}
use yafu.AppDetail.DiffBody.{
  DiffLine, UnifiedLine, LineNumber, desired_line, live_line, hunks_of, split_desired, split_live,
  unified, is_drawn, unified_line,
}

-- what a reader of the two columns sees in a row: the side that is not a placeholder
abbrev pub row_text : DiffLine → DiffLine → Text
row_text d l = elim d.n [ LineNumber.dot ↦ l.text | _ ↦ d.text ]

abbrev pub read_rows : List DiffLine → List DiffLine → List Text
read_rows [] ls = []
read_rows (d ∷ ds) [] = []
read_rows (d ∷ ds) (l ∷ ls) = row_text d l ∷ read_rows ds ls

abbrev pub read_split : List (Text × List DiffLine) → List (List DiffLine) → List (Text × List Text)
read_split [] live = []
read_split (d ∷ ds) [] = []
read_split (d ∷ ds) (l ∷ ls) = (d.0, read_rows d.1 l) ∷ read_split ds ls

abbrev pub read_unified : List (Text × List UnifiedLine) → List (Text × List Text)
read_unified hs = map (λ h. (h.0, map (λ l. l.text) h.1)) hs

-- every line of the hunks has one of the kinds that a diff has: context, add or del
abbrev pub IsDiff : List RenderHunk → Type 0
IsDiff = All (λ h. All (λ l. is_drawn l ≡ true) h.lines)

row_text_lem : (l : RenderLine) → row_text (desired_line l) (live_line l) ≡ l.text
unfolding desired_line live_line
row_text_lem l = ground arith

read_rows-lines :
    (ls : List RenderLine)
    → All (λ l. is_drawn l ≡ true) ls
    → read_rows (map desired_line ls) (map live_line ls)
      ≡ map (λ l. l.text) (map unified_line (keep is_drawn ls))
read_rows-lines [] h = refl
read_rows-lines (l ∷ ls) (d, h) = rw d (ap₂ ◌∷◌ (row_text_lem l) (read_rows-lines ls h))

hunks_lem :
    (hs : List RenderHunk)
    → IsDiff hs
    → read_split
        (map (λ h. (h.label, map desired_line h.lines)) hs)
        (map (λ h. map live_line h.lines) hs)
      ≡ read_unified (map (λ h. (h.label, map unified_line (keep is_drawn h.lines))) hs)
hunks_lem [] h = refl
hunks_lem (k ∷ hs) (d, h) =
    ap₂ ◌∷◌ (ap (λ t. (k.label, t)) (read_rows-lines k.lines d)) (hunks_lem hs h)

-- The two layouts of a diff show the same text: where each line is context, an addition or a
-- deletion, the rows of the split layout, read on the side that is not a placeholder, are the lines
-- of the unified layout, hunk by hunk and in the same order.
pub split-unified :
    (r : RenderResource)
    → IsDiff (hunks_of r)
    → read_split (split_desired r) (split_live r) ≡ read_unified (unified r)
unfolding split_desired split_live unified
split-unified r h = hunks_lem (hunks_of r) h
