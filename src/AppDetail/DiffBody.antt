-- ===== src/AppDetail/DiffBody.antt =====
-- web/src/pages/AppDetail.tsx, SplitDiff and UnifiedDiff: the lines that the two layouts show.
use yafu.Base.{
  ℕ, ◌≡◌, ◌∙◌, sym, Bool, true, false, Option, none, some, or_else, List, [], map, Text, codes,
  keep, length, length-map,
}
use yafu.ApiTypes.{RenderLine, RenderLineKind, RenderHunk, RenderResource}

-- The number is a dot, or the line's number, or empty.
pub data LineNumber : Type 0 where
  dot blank : LineNumber
  number : ℕ → LineNumber

pub record DiffLine : Type 0 where
  pub cls : Text
  pub n : LineNumber
  pub text : Text
  pub focusable : Bool

abbrev number_or_blank : Option ℕ → LineNumber
number_or_blank none = blank
number_or_blank (some n) = number n

abbrev no_line : DiffLine
no_line = record { cls = codes "empty"; n = dot; text = codes "(no line)"; focusable = false }

-- the side of Git: a line that only the cluster has is left empty
unfoldable pub desired_line : RenderLine → DiffLine
desired_line l = elim l.kind [
  | RenderLineKind.add ↦ no_line
  | RenderLineKind.del ↦ record {
    cls = codes "del";
    n = number_or_blank l.desired_ln;
    text = l.text;
    focusable = true;
  }
  | _ ↦ record { cls = []; n = number_or_blank l.desired_ln; text = l.text; focusable = false }
]

-- the side of the cluster: a line that only Git has is left empty
unfoldable pub live_line : RenderLine → DiffLine
live_line l = elim l.kind [
  | RenderLineKind.del ↦ no_line
  | RenderLineKind.add ↦ record {
    cls = codes "add";
    n = number_or_blank l.live_ln;
    text = l.text;
    focusable = true;
  }
  | _ ↦ record { cls = []; n = number_or_blank l.live_ln; text = l.text; focusable = false }
]

abbrev pub hunks_of : RenderResource → List RenderHunk
hunks_of r = or_else r.hunks []

unfoldable pub split_desired : RenderResource → List (Text × List DiffLine)
unfolding desired_line
split_desired r = map (λ h. (h.label, map desired_line h.lines)) (hunks_of r)

unfoldable pub split_live : RenderResource → List (List DiffLine)
unfolding live_line
split_live r = map (λ h. map live_line h.lines) (hunks_of r)

abbrev pub is_drawn : RenderLine → Bool
is_drawn l = elim l.kind [ RenderLineKind.empty ↦ false | _ ↦ true ]

pub record UnifiedLine : Type 0 where
  pub cls : Text
  pub n : LineNumber
  pub n2 : LineNumber
  pub text : Text

abbrev line_class : RenderLineKind → Text
line_class RenderLineKind.add = codes "add"
line_class RenderLineKind.del = codes "del"
line_class _ = []

abbrev pub unified_line : RenderLine → UnifiedLine
unified_line l = record {
  cls = line_class l.kind;
  n = number_or_blank l.desired_ln;
  n2 = number_or_blank l.live_ln;
  text = l.text;
}

unfoldable pub unified : RenderResource → List (Text × List UnifiedLine)
unified r = map (λ h. (h.label, map unified_line (keep is_drawn h.lines))) (hunks_of r)

-- In each hunk the two columns have as many lines, so they stay aligned.
pub columns_aligned :
    (h : RenderHunk) → length (map desired_line h.lines) ≡ length (map live_line h.lines)
columns_aligned h = length-map desired_line h.lines ∙ sym (length-map live_line h.lines)
