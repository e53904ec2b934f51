-- ===== src/DepGraph/Matching.antt =====
-- web/src/lib/depGraph.ts: resolution as the comments describe it, by namespace, kind and name.
use yafu.Base.{
  ◌≡◌, refl, sym, ap, ap₂, ◌∙◌, ◌≢◌, ◌⊎◌, inl, inr, Bool, true, false, ◌&&◌, Option, none, some,
  List, [], ◌∷◌, Text, ◌=t◌, =t_eq, =t_refl, keep, All, All-In, Lacks, Option-cases, Bool-ext,
  keep-congr, keep-keep, keep-false, find-keep, truthy, or_else, if◌then◌else◌, arith,
}
use yafu.ApiTypes.{
  Application, Source, SourceKind, source_kind_text, git_repository, helm_repository,
  oci_repository, bucket,
}
use yafu.DepGraph.{SourceRef}
use yafu.DepGraph.Index.{
  kind_key, name_key, source_kind_key, source_name_key, empty_index, index_from, pick, or_try,
  resolve,
}
use yafu.DepGraph.Keys.{name_key_unique, kind_key_unique, source_kind_text-Lacks, IsPrintableKind}
use yafu.DepGraph.Resolution.{last_or, candidates, of_kind_key, of_name_key, resolve-index_from}

-- The source stands in the application's namespace and has the reference's name.
abbrev pub at_place : Application → Text → Source → Bool
at_place a name s = (s.ns =t a.ns) && (s.name =t name)

-- The source is of the kind that the reference names.
abbrev pub of_kind : Option Text → Source → Bool
of_kind none s = false
of_kind (some k) s = source_kind_text s.kind =t k

abbrev pub only : List Source → Option Source
only [] = none
only (s ∷ []) = some s
only (s ∷ t ∷ ss) = none

-- The last source of the namespace, kind and name; where there is none, the only source of the
-- namespace and name, whatever its kind.
abbrev pub resolve_plain : List Source → Application → SourceRef → Option Source
resolve_plain ss a ref =
    or_try (last_or none (keep (of_kind ref.kind) (keep (at_place a ref.name) ss)))
      (only (keep (at_place a ref.name) ss))

-- No namespace holds a slash, as Kubernetes has it of every name of a namespace.
abbrev pub SlashFree : List Source → Type 0
SlashFree = All (λ s. Lacks b'/' s.ns)

and_parts : (b c : Bool) → (b && c) ≡ true → (b ≡ true) × (c ≡ true)
and_parts b c h = ground arith

name_key_test :
    (s : Source) (a : Application) (name : Text)
    → Lacks b'/' s.ns
    → Lacks b'/' a.ns
    → (source_name_key s =t name_key a.ns name) ≡ at_place a name s
name_key_test s a name hs ha = Bool-ext _ _ forth back
  where
    forth : (source_name_key s =t name_key a.ns name) ≡ true → at_place a name s ≡ true
    forth e =
        let (u, v) = name_key_unique s.ns a.ns s.name name hs ha (=t_eq _ _ e) in
        rw (u, v, =t_refl a.ns) (=t_refl name)

    back : at_place a name s ≡ true → (source_name_key s =t name_key a.ns name) ≡ true
    back e =
        let (u, v) = and_parts (s.ns =t a.ns) (s.name =t name) e in
        rw (=t_eq _ _ u, =t_eq _ _ v) (=t_refl (name_key a.ns name))

kind_key_test :
    (s : Source) (a : Application) (k name : Text)
    → Lacks b'/' s.ns
    → Lacks b'/' a.ns
    → Lacks b'/' k
    → (source_kind_key s =t kind_key a.ns k name) ≡ (at_place a name s && of_kind (some k) s)
kind_key_test s a k name hs ha hk = Bool-ext _ _ forth back
  where
    forth :
        (source_kind_key s =t kind_key a.ns k name) ≡ true
        → (at_place a name s && of_kind (some k) s) ≡ true
    forth e =
        let (u, w, v) =
          kind_key_unique s.ns a.ns (source_kind_text s.kind) k s.name name hs ha
            (source_kind_text-Lacks s.kind) hk (=t_eq _ _ e) in
        rw (u, w, v, =t_refl a.ns, =t_refl name) (=t_refl k)

    back :
        (at_place a name s && of_kind (some k) s) ≡ true
        → (source_kind_key s =t kind_key a.ns k name) ≡ true
    back e =
        let (p, w) = and_parts (at_place a name s) (of_kind (some k) s) e in
        let (u, v) = and_parts (s.ns =t a.ns) (s.name =t name) p in
        rw (=t_eq _ _ u, =t_eq _ _ v, =t_eq _ _ w) (=t_refl (kind_key a.ns k name))

last_or-eq-none : (x : Source) (xs : List Source) → last_or (some x) xs ≢ none
last_or-eq-none x [] = λ e. cc
last_or-eq-none x (y ∷ ys) = last_or-eq-none y ys

-- The choice among the candidates, once no candidate is of the kind.
pick-only :
    (ko : Option Text) (n : Text) (xs : List Source)
    → keep (of_kind ko) xs ≡ []
    → pick (record { kind = ko; name = n }) (candidates xs) ≡ only xs
unfolding pick
pick-only ko n [] e = refl
pick-only ko n (x ∷ []) e = refl
pick-only none n (x ∷ y ∷ ys) e = refl
pick-only (some []) n (x ∷ y ∷ ys) e = refl
pick-only (some (c ∷ k)) n (x ∷ y ∷ ys) e = find-keep (of_kind (some (c ∷ k))) (x ∷ y ∷ ys) e

last_or-cases :
    (xs : List Source)
    → ((xs ≡ []) × (last_or none xs ≡ none)) ⊎ ((s : Source) × (last_or none xs ≡ some s))
last_or-cases [] = inl (refl, refl)
last_or-cases (x ∷ xs) = elim (Option-cases (last_or (some x) xs)) [
  | inl e ↦ absurd (last_or-eq-none x xs e)
  | inr found ↦ inr found
]

-- `source_kind_text` is never empty
no_kind : (xs : List Source) → keep (of_kind (some [])) xs ≡ []
unfolding ◌=t◌
no_kind xs = keep-false (of_kind (some [])) xs (λ s. of_no_kind s.kind)
  where
    of_no_kind : (k : SourceKind) → (source_kind_text k =t []) ≡ false
    of_no_kind git_repository = refl
    of_no_kind helm_repository = refl
    of_no_kind oci_repository = refl
    of_no_kind bucket = refl

resolve_cases :
    (ko : Option Text) (n : Text) (xs : List Source)
    → or_try
        (if truthy (or_else ko []) then last_or none (keep (of_kind ko) xs) else none)
        (pick (record { kind = ko; name = n }) (candidates xs))
      ≡ or_try (last_or none (keep (of_kind ko) xs)) (only xs)
resolve_cases none n xs =
    rw (keep-false (of_kind none) xs (λ s. refl))
      (pick-only none n xs (keep-false (of_kind none) xs (λ s. refl)))
resolve_cases (some []) n xs = rw (no_kind xs) (pick-only (some []) n xs (no_kind xs))
resolve_cases (some (c ∷ k)) n xs = elim (last_or-cases (keep (of_kind (some (c ∷ k))) xs)) [
  | inl (e, l) ↦ rw l (pick-only (some (c ∷ k)) n xs e)
  | inr (s, l) ↦ rw l
]

module _ (ss : List Source) (a : Application) (free : SlashFree ss)
    (ns_free : Lacks b'/' a.ns) where
  of_name_key-at_place :
      (name : Text) → of_name_key (name_key a.ns name) ss ≡ keep (at_place a name) ss
  of_name_key-at_place name =
      keep-congr _ _ ss λ s k. name_key_test s a name (All-In _ ss s free k) ns_free

  of_kind_key-at_place :
      (k name : Text)
      → Lacks b'/' k
      → of_kind_key (kind_key a.ns k name) ss ≡ keep (of_kind (some k)) (keep (at_place a name) ss)
  of_kind_key-at_place k name hk =
      (keep-congr _ _ ss λ s i. kind_key_test s a k name (All-In _ ss s free i) ns_free hk)
      ∙ sym (keep-keep (of_kind (some k)) (at_place a name) ss)

  kinded :
      (ko : Option Text) (name : Text)
      → IsPrintableKind ko
      → (if truthy (or_else ko [])
          then last_or none (of_kind_key (kind_key a.ns (or_else ko []) name) ss)
          else none)
        ≡ (if truthy (or_else ko [])
            then last_or none (keep (of_kind ko) (keep (at_place a name) ss))
            else none)
  kinded none name h = refl
  kinded (some k) name h = rw (of_kind_key-at_place k name h)

  -- Where no namespace holds a slash, nor the kind of the reference, the two lookups resolve a reference as the plain search
  -- does: to the last source of its namespace, kind and name; where there is none, to the only
  -- source of its namespace and name, whatever that source's kind; and otherwise to none.
  pub resolve-plain :
      (ref : SourceRef)
      → IsPrintableKind ref.kind
      → resolve (index_from empty_index ss) a ref ≡ resolve_plain ss a ref
  resolve-plain ref h =
      resolve-index_from ss a ref
      ∙ ap₂ or_try (kinded ref.kind ref.name h)
          (ap (λ xs. pick ref (candidates xs)) (of_name_key-at_place ref.name))
      ∙ resolve_cases ref.kind ref.name (keep (at_place a ref.name) ss)
