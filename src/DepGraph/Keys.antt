-- ===== src/DepGraph/Keys.antt =====
-- web/src/lib/depGraph.ts: source references, and what it means that two lookup keys are equal.
use native.Mathlib.Numerals.{add-one}
use yafu.Base.{
  subst, ℕ, ◌≡◌, refl, ◌≢◌, ap, sym, ◌∙◌, Option, none, some, [], ◌∷◌, ◌++◌, Text, index_of, Lacks,
  cut_unique, arith, index_of-append, index_of-eq-none, some-index_of,
}
use yafu.ApiTypes.{
  SourceKind, source_kind_text, git_repository, helm_repository, oci_repository, bucket,
}
use yafu.DepGraph.{SourceRef, ref_at, parse_source_ref}
use yafu.DepGraph.Index.{kind_key, name_key}

-- The text of a reference, as the API writes it.
abbrev pub print_ref : SourceRef → Text
print_ref r = elim r.kind [ none ↦ r.name | some k ↦ k ++ b'/' ∷ r.name ]

-- A kind that holds no slash, if there is one.
abbrev pub IsPrintableKind : Option Text → Type 0
IsPrintableKind none = Unit {0}
IsPrintableKind (some k) = Lacks b'/' k

-- A reference that the API can write: its kind holds no slash, a name without a kind none either
-- and is not empty.
abbrev pub IsPrintable : SourceRef → Type 0
IsPrintable r = elim r.kind [ none ↦ (r.name ≢ []) × Lacks b'/' r.name | some k ↦ Lacks b'/' k ]

parse_source_ref-ref_at :
    (s : Text) → s ≢ [] → parse_source_ref (some s) ≡ some (ref_at s (index_of b'/' s))
unfolding parse_source_ref
parse_source_ref-ref_at [] h = absurd (h refl)
parse_source_ref-ref_at (c ∷ s) h = refl

kinded-ne-nil : (k n : Text) → k ++ b'/' ∷ n ≢ []
kinded-ne-nil [] n = λ e. cc
kinded-ne-nil (c ∷ k) n = λ e. cc

print_cases :
    (k : Option Text) (n : Text)
    → IsPrintable (record { kind = k; name = n })
    → parse_source_ref (some (print_ref (record { kind = k; name = n })))
      ≡ some (record { kind = k; name = n })
unfolding ref_at
print_cases none n (h, l) =
    parse_source_ref-ref_at n h ∙ ap (λ i. some (ref_at n i)) (index_of-eq-none b'/' n l)
print_cases (some k) n l =
    let (i, e, u, v) = index_of-append b'/' k n l in
    parse_source_ref-ref_at (k ++ b'/' ∷ n) (kinded-ne-nil k n) ∙ rw e (ground (arith, u, v))

-- Parsing the text of a printable reference gives the reference back.
pub parse_source_ref-print :
    (r : SourceRef) → IsPrintable r → parse_source_ref (some (print_ref r)) ≡ some r
parse_source_ref-print r h = print_cases r.kind r.name h

print-ref_at :
    (s : Text) (o : Option ℕ)
    → index_of b'/' s ≡ o
    → (print_ref (ref_at s o) ≡ s) × IsPrintableKind (ref_at s o).kind
unfolding ref_at
print-ref_at s none e = (refl, tt)
print-ref_at s (some i) e = let (l, p) = some-index_of b'/' i s e in (rw add-one (sym p), l)

unwrapped : {r q : SourceRef} → some r ≡ some q → r ≡ q
unwrapped h = cc

-- What parsing accepts is printed back, and its kind holds no slash.
pub print-parse_source_ref :
    (s : Text) (r : SourceRef)
    → parse_source_ref (some s) ≡ some r
    → (print_ref r ≡ s) × IsPrintableKind r.kind
unfolding parse_source_ref
print-parse_source_ref [] r h = cc
print-parse_source_ref (c ∷ s) r h =
    subst (λ q. (print_ref q ≡ c ∷ s) × IsPrintableKind q.kind) (unwrapped h)
      (print-ref_at (c ∷ s) (index_of b'/' (c ∷ s)) refl)

pub source_kind_text-Lacks : (k : SourceKind) → Lacks b'/' (source_kind_text k)
source_kind_text-Lacks git_repository = omega arith
source_kind_text-Lacks helm_repository = omega arith
source_kind_text-Lacks oci_repository = omega arith
source_kind_text-Lacks bucket = omega arith

pub name_key_unique :
    (m n s t : Text) → Lacks b'/' m → Lacks b'/' n → name_key m s ≡ name_key n t → (m ≡ n) × (s ≡ t)
name_key_unique m n s t hm hn e = cut_unique b'/' m n s t hm hn e

pub kind_key_unique :
    (m n j k s t : Text)
    → Lacks b'/' m
    → Lacks b'/' n
    → Lacks b'/' j
    → Lacks b'/' k
    → kind_key m j s ≡ kind_key n k t
    → (m ≡ n) × (j ≡ k) × (s ≡ t)
kind_key_unique m n j k s t hm hn hj hk e =
    let (p, q) = cut_unique b'/' m n _ _ hm hn e in
    let (u, v) = cut_unique b'/' j k s t hj hk q in (p, u, v)
