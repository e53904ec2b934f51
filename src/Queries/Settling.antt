-- ===== src/Queries/Settling.antt =====
-- web/src/lib/queries.ts, useReconcileAllApps: when the bulk reconciliation succeeds, and what a
-- failure reports.
use yafu.Base.{
  suc, Option-cases, subst, In-keep, keep-In, Bool-cases, ◌⊎◌, ◌↔◌, ℕ, zero, ◌≡◌, ◌≢◌, refl, sym,
  ap, ◌∙◌, true, false, Option, some, List, [], ◌∷◌, Text, length, keep, In, inl, inr,
}
use yafu.ApiTypes.{Application}
use yafu.Queries.Mutations.{app_action_url, reconcile}
use yafu.Queries.Bulk.{
  Settled, is_rejected, posted, message_of, failure, conclude, can_build, fulfilled, rejected,
  reconciled, failed, uri_error, settled, reconcile_all,
}

abbrev url : Application → Option Text
url a = app_action_url a reconcile

-- The entry of that number, counted from 0.
abbrev pub At : {A : Type 0} → ℕ → A → List A → Type 0
At i a [] = ⊥
At zero a (x ∷ xs) = x ≡ a
At (suc i) a (x ∷ xs) = At i a xs

In-At : {A : Type 0} → (a : A) (xs : List A) → In a xs → (i : ℕ) × At i a xs
In-At a [] i = elim i [ ]
In-At a (x ∷ xs) (inl p) = (0, p)
In-At a (x ∷ xs) (inr j) = let (i, h) = In-At a xs j in (suc i, h)

posted-At :
    (i : ℕ) (u : Text) (apps : List Application)
    → At i u (posted apps)
    → (a : Application) × At i a apps × (url a ≡ some u)
unfolding posted
posted-At i u [] h = absurd h
posted-At i u (a ∷ as') h = elim (Option-cases (url a)) [
  | inl e ↦ absurd (rw e at h)
  | inr (v, e) ↦ from i v e (λ j. posted-At j u as') (rw e at h)
]
  where
    from :
        (i : ℕ) (v : Text)
        → url a ≡ some v
        → ((j : ℕ) → At j u (posted as') → (b : Application) × At j b as' × (url b ≡ some u))
        → At i u (v ∷ posted as')
        → (b : Application) × At i b (a ∷ as') × (url b ≡ some u)
    from zero v e more p = (a, refl, e ∙ ap some p)
    from (suc i) v e more h = more i h

At-posted :
    (i : ℕ) (a : Application) (apps : List Application)
    → can_build apps ≡ true
    → At i a apps
    → (u : Text) × (url a ≡ some u) × At i u (posted apps)
unfolding posted
At-posted i a [] h k = absurd k
At-posted i a (b ∷ as') h k = elim (Option-cases (url b)) [
  | inl e ↦ let no' : false ≡ true = rw e at h in cc
  | inr (v, e) ↦ from i v e (λ j. At-posted j a as' (rw e at h)) k
]
  where
    from :
        (i : ℕ) (v : Text)
        → url b ≡ some v
        → ((j : ℕ) → At j a as' → (u : Text) × (url a ≡ some u) × At j u (posted as'))
        → At i a (b ∷ as')
        → (u : Text) × (url a ≡ some u) × At i u (posted (b ∷ as'))
    from zero v e more p = (v, rw (← p) e, rw e refl)
    from (suc i) v e more k = let (u, q, m) = more i k in (u, q, rw e m)

settled-At :
    (post : ℕ → Text → Settled) (r : Settled) (us : List Text)
    → In r (settled post us)
    → (i : ℕ) × (u : Text) × At i u us × (post i u ≡ r)
unfolding settled
settled-At post r [] k = elim k [ ]
settled-At post r (u ∷ us) (inl p) = (0, u, refl, p)
settled-At post r (u ∷ us) (inr k) =
    let (i, v, h, p) = settled-At (λ j. post (suc j)) r us k in (suc i, v, h, p)

At-settled :
    (post : ℕ → Text → Settled) (i : ℕ) (u : Text) (us : List Text)
    → At i u us
    → In (post i u) (settled post us)
unfolding settled
At-settled post i u [] h = absurd h
At-settled post zero u (v ∷ us) p = inl (ap (post 0) p)
At-settled post (suc i) u (v ∷ us) h = inr (At-settled (λ j. post (suc j)) i u us h)

built :
    (apps : List Application)
    → ((a : Application) → In a apps → (u : Text) × (url a ≡ some u))
    → can_build apps ≡ true
built [] f = refl
built (a ∷ as') f = let (u, e) = f a (inl refl) in rw (e, built as' (λ b i. f b (inr i))) refl

-- What the results say, by whether one is a rejection.
conclude-cases :
    (total : ℕ) (rs : List Settled)
    → ((conclude total rs ≡ reconciled total) × ((r : Settled) → In r rs → is_rejected r ≡ false))
      ⊎ ((m : Text) × In (rejected m) rs
          × (conclude total rs ≡ failed (failure (length (keep is_rejected rs)) total m)))
unfolding conclude
conclude-cases total rs = elim (nil_or_cons (keep is_rejected rs)) [
  | inl e ↦ inl (rw e refl, λ r i. none_rejected r i e)
  | inr (r, ks, e) ↦ inr (first r ks e)
]
  where
    nil_or_cons :
        (ks : List Settled) → (ks ≡ []) ⊎ ((r : Settled) × (k : List Settled) × (ks ≡ r ∷ k))
    nil_or_cons [] = inl refl
    nil_or_cons (r ∷ k) = inr (r, k, refl)

    none_rejected : (r : Settled) → In r rs → keep is_rejected rs ≡ [] → is_rejected r ≡ false
    none_rejected r i e = elim (Bool-cases (is_rejected r)) [
      | inl t ↦ elim (rw e at (keep-In is_rejected r rs i t)) [ ]
      | inr f ↦ f
    ]

    named : (r : Settled) → is_rejected r ≡ true → r ≡ rejected (message_of r)
    named fulfilled h = cc
    named (rejected m) h = refl

    first :
        (r : Settled) (ks : List Settled)
        → keep is_rejected rs ≡ r ∷ ks
        → (m : Text) × In (rejected m) rs
          × (conclude total rs ≡ failed (failure (length (keep is_rejected rs)) total m))
    first r ks e =
        let here : In r (keep is_rejected rs) = rw e (inl refl) in
        let (i, t) = In-keep is_rejected r rs here in
        (message_of r, subst (λ x. In x rs) (named r t) i, rw e refl)

settled_well : (r : Settled) → is_rejected r ≡ false → r ≡ fulfilled
settled_well fulfilled h = refl
settled_well (rejected m) h = cc

no_success : (m : Text) (n : ℕ) → failed m ≢ reconciled n
no_success m n e = cc

module _ (post : ℕ → Text → Settled) (apps : List Application) where
  abbrev results : List Settled
  results = settled post (posted apps)

  -- A result comes from the call of an application's URL.
  result-from :
      (r : Settled)
      → In r results
      → (i : ℕ) × (a : Application) × At i a apps × ((u : Text) × (url a ≡ some u) × (post i u ≡ r))
  result-from r k =
      let (i, u, h, q) = settled-At post r (posted apps) k in
      let (a, j, w) = posted-At i u apps h in (i, a, j, (u, w, q))

  all_fulfilled :
      can_build apps ≡ true
      → ((r : Settled) → In r results → is_rejected r ≡ false)
      → (i : ℕ) (a : Application) → At i a apps
      → (u : Text) × (url a ≡ some u) × (post i u ≡ fulfilled)
  all_fulfilled b f i a h =
      let (u, e, k) = At-posted i a apps b h in
      (u, e, settled_well (post i u) (f (post i u) (At-settled post i u (posted apps) k)))

  -- The whole run reports success, with the number of applications, exactly when the URL of each
  -- application can be built and its call is fulfilled.
  pub reconcile_all-reconciled : (reconcile_all post apps ≡ reconciled (length apps)) ↔ (
      (i : ℕ) (a : Application)
      → At i a apps
      → (u : Text) × (app_action_url a reconcile ≡ some u) × (post i u ≡ fulfilled))
  unfolding reconcile_all
  reconcile_all-reconciled = (forward, backward)
    where
      forward :
          reconcile_all post apps ≡ reconciled (length apps)
          → (i : ℕ) (a : Application) → At i a apps
          → (u : Text) × (url a ≡ some u) × (post i u ≡ fulfilled)
      forward h = elim (Bool-cases (can_build apps)) [
        | inr b ↦ let no' : uri_error ≡ reconciled (length apps) = rw b at h in absurd (thrown no')
        | inl b ↦ elim (conclude-cases (length apps) results) [
          | inl (_, f) ↦ all_fulfilled b f
          | inr (m, _, e) ↦ absurd (no_success _ (length apps) (sym e ∙ (rw b at h)))
        ]
      ]
        where
          thrown : uri_error ≡ reconciled (length apps) → ⊥
          thrown q = cc

      backward :
          ((i : ℕ) (a : Application)
            → At i a apps
            → (u : Text) × (url a ≡ some u) × (post i u ≡ fulfilled))
          → reconcile_all post apps ≡ reconciled (length apps)
      backward f = elim (conclude-cases (length apps) results) [
        | inl (e, _) ↦
            rw
              (built apps (λ a k. let (i, h) = In-At a apps k in let (u, p, _) = f i a h in (u, p)))
              e
        | inr (m, k, _) ↦
            let (i, a, j, (u, w, q)) = result-from (rejected m) k in
            let (u', w', q') = f i a j in absurd (clash i u u' m (sym w ∙ w') q q')
      ]
        where
          clash :
              (i : ℕ) (u u' m : Text)
              → some u ≡ some u'
              → post i u ≡ rejected m
              → post i u' ≡ fulfilled
              → ⊥
          clash i u u' m e p q = cc

  -- A failure is reported with the number of calls that were rejected, the number of applications,
  -- and the reason of a rejected call, which was made for the application at the same place of the
  -- list.
  pub reconcile_all-failed :
      (e : Text)
      → reconcile_all post apps ≡ failed e
      → (i : ℕ) × (a : Application) × At i a apps
        × ((u : Text) × (m : Text) × (app_action_url a reconcile ≡ some u)
            × (post i u ≡ rejected m)
            × (e ≡ failure (length (keep is_rejected results)) (length apps) m))
  unfolding reconcile_all
  reconcile_all-failed e h = elim (Bool-cases (can_build apps)) [
    | inr b ↦ let no' : uri_error ≡ failed e = rw b at h in absurd (thrown no')
    | inl b ↦ elim (conclude-cases (length apps) results) [
      | inl (q, _) ↦ absurd (no_success e (length apps) (sym (rw b at h) ∙ q))
      | inr (m, k, q) ↦
          let (i, a, j, (u, w, p)) = result-from (rejected m) k in
          (i, a, j, (u, m, w, p, same _ (sym (rw b at h) ∙ q)))
    ]
  ]
    where
      thrown : uri_error ≡ failed e → ⊥
      thrown q = cc

      same : (t : Text) → failed e ≡ failed t → e ≡ t
      same t q = cc
