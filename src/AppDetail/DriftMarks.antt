-- ===== src/AppDetail/DriftMarks.antt =====
-- web/src/pages/AppDetail.tsx, DriftTab: the rows that are marked in the colour of an error, against
-- the count in the head.
use yafu.Base.{
  inr, inl, Bool-cases, ℕ, ◌+◌, ◌≡◌, refl, Option, none, some, or_else, List, [], ◌∷◌, ◌++◌, Text,
  codes, ◌=t◌, arith, if◌then◌else◌,
}
use yafu.ApiTypes.{DriftStatus, DriftedResource, ManagedField}
use yafu.Chrome.{status_chip}
use yafu.Markup.{Piece, toned, dot, each}
use yafu.AppDetail.ResourceTabs.{
  drift_status_text, drift_chip, is_drift, NoAction, drift_row, count_drifted, managers_pieces,
  manager_pieces, spaced_name, drift_dot,
}

-- how many marks of a colour a view has
abbrev pub marks : Text → List (Piece NoAction) → ℕ
marks c [] = 0
marks c (dot d ∷ ps) = (if d =t c then 1 else 0) + marks c ps
marks c (_ ∷ ps) = marks c ps

marks-append :
    (c : Text) (ps qs : List (Piece NoAction)) → marks c (ps ++ qs) ≡ marks c ps + marks c qs
marks-append c [] qs = omega arith
marks-append c (dot d ∷ ps) qs = omega (arith, marks-append c ps qs)
marks-append c (Piece.says _ ∷ ps) qs = marks-append c ps qs
marks-append c (Piece.toned _ _ ∷ ps) qs = marks-append c ps qs
marks-append c (Piece.icon _ ∷ ps) qs = marks-append c ps qs
marks-append c (Piece.button _ ∷ ps) qs = marks-append c ps qs
marks-append c (Piece.link _ _ ∷ ps) qs = marks-append c ps qs
marks-append c (Piece.input _ _ _ ∷ ps) qs = marks-append c ps qs
marks-append c (Piece.select _ _ _ ∷ ps) qs = marks-append c ps qs
marks-append c (Piece.checkbox _ _ _ _ ∷ ps) qs = marks-append c ps qs
marks-append c (Piece.row _ _ ∷ ps) qs = marks-append c ps qs

marks-managers : (c : Text) (ms : List ManagedField) → marks c (each manager_pieces ms) ≡ 0
unfolding each
marks-managers c [] = refl
marks-managers c (m ∷ ms) = marks-managers c ms

marks_managers : (c : Text) (ms : List ManagedField) → marks c (managers_pieces ms) ≡ 0
marks_managers c [] = refl
marks_managers c (m ∷ ms) = marks-managers c (m ∷ ms)

marks-name : (c : Text) (ns : Option Text) (name : Text) → marks c (spaced_name ns name) ≡ 0
marks-name c none name = refl
marks-name c (some []) name = refl
marks-name c (some (_ ∷ _)) name = refl

-- a row has one mark, that of its status
marks-row :
    (c : Text) (r : DriftedResource)
    → marks c (drift_row r) ≡ (if drift_dot r.status =t c then 1 else 0)
unfolding drift_row
marks-row c r = omega (
  arith,
  marks-append c (spaced_name r.ns r.name) (
      toned (status_chip (drift_chip r.status) (some (drift_status_text r.status))).cls
        (drift_status_text r.status)
      ∷ managers_pieces (or_else r.managers [])),
  marks-name c r.ns r.name,
  marks_managers c (or_else r.managers []),
)

error_dot :
    (s : DriftStatus)
    → ◌≡◌ {A = ℕ} (if drift_dot s =t codes "var(--err)" then 1 else 0) (if is_drift s then 1 else 0)
unfolding ◌=t◌
error_dot DriftStatus.ready = refl
error_dot DriftStatus.drift = refl
error_dot DriftStatus.notfound = refl
error_dot DriftStatus.unknown = refl

count_drifted_one :
    (r : DriftedResource) (rs : List DriftedResource)
    → count_drifted (r ∷ rs) ≡ (if is_drift r.status then 1 else 0) + count_drifted rs
unfolding count_drifted
count_drifted_one r rs = elim (Bool-cases (is_drift r.status)) [
  | inl e ↦ rw e (omega arith)
  | inr e ↦ rw e (omega arith)
]

count_nil : 0 ≡ count_drifted []
unfolding count_drifted
count_nil = refl

-- The count of the head is the number of rows that are marked in the colour of an error.
pub drifted-marks :
    (rs : List DriftedResource) → marks (codes "var(--err)") (each drift_row rs) ≡ count_drifted rs
unfolding each
drifted-marks [] = count_nil
drifted-marks (r ∷ rs) = omega (
  arith,
  marks-append (codes "var(--err)") (drift_row r) (each drift_row rs),
  marks-row (codes "var(--err)") r,
  error_dot r.status,
  count_drifted_one r rs,
  drifted-marks rs,
)
