-- ===== src/Stream/Invariant.antt =====
-- web/src/lib/stream.ts: every step keeps the pending map and the window's timers in agreement.
use yafu.Base.{
  ℕ, ◌+◌, suc, ◌≤◌, ◌<◌, ◌≡◌, ◌≢◌, refl, sym, ap, ◌∙◌, true, false, some, Bool-cases, [], ◌∷◌, Text,
  ◌=t◌, =t_eq, =t_refl, In, In-append, In-append_left, In-append_right, if◌then◌else◌, arith, inl,
  inr, ◌⊎◌,
}
use yafu.Base.Entries.{get, get-put, put-Distinct}
use yafu.Stream.{Timer, Stream, QueryKey, id_of, debounce_ms, clear_existing, schedule_invalidate}
use yafu.Stream.Timers.{Inv, clear_existing-In, In-clear_existing}

pub different : (s t : Text) → s ≢ t → (t =t s) ≡ false
different s t h = elim (Bool-cases (t =t s)) [ inl e ↦ absurd (h (sym (=t_eq t s e))) | inr e ↦ e ]

-- The timer that `schedule_invalidate` sets.
abbrev pub new_timer : QueryKey → Stream → Timer
new_timer key st = record { handle = st.next_handle; due = st.clock + debounce_ms; key = key }

module _ (key : QueryKey) (st : Stream) (inv : Inv st) where
  -- The timers after a call: those of other keys, and the new one.
  pub schedule-In :
      (t : Timer)
      → In t (schedule_invalidate key st).timers
      → (In t st.timers × (id_of t.key ≢ id_of key)) ⊎ (new_timer key st ≡ t)
  unfolding schedule_invalidate
  schedule-In t i = elim (In-append t (clear_existing (get (id_of key) st.pending) st.timers) _ i) [
    | inl j ↦ inl (clear_existing-In st inv (id_of key) t j)
    | inr j ↦ newest j
  ]
    where
      newest :
          In t (new_timer key st ∷ [])
          → (In t st.timers × (id_of t.key ≢ id_of key)) ⊎ (new_timer key st ≡ t)
      newest (inl e) = inr e
      newest (inr j) = elim j [ ]

  pub In-schedule_old :
      (t : Timer)
      → In t st.timers
      → id_of t.key ≢ id_of key
      → In t (schedule_invalidate key st).timers
  unfolding schedule_invalidate
  In-schedule_old t i other = In-append_left t _ _ (In-clear_existing st inv (id_of key) t i other)

  pub In-schedule_new : In (new_timer key st) (schedule_invalidate key st).timers
  unfolding schedule_invalidate
  In-schedule_new =
      In-append_right _ (clear_existing (get (id_of key) st.pending) st.timers) _ (inl refl)

  schedule_filed :
      (t : Timer)
      → (In t st.timers × (id_of t.key ≢ id_of key)) ⊎ (new_timer key st ≡ t)
      → get (id_of t.key) (schedule_invalidate key st).pending ≡ some t.handle
  unfolding schedule_invalidate
  schedule_filed t (inl (i, other)) =
      get-put (id_of t.key) (id_of key) st.next_handle st.pending
      ∙ rw (different (id_of t.key) (id_of key) other) (inv.filed t i)
  schedule_filed t (inr e) =
      rw (← e)
        (get-put (id_of key) (id_of key) st.next_handle st.pending ∙ rw (=t_refl (id_of key)))

  schedule_live :
      (t : Timer)
      → (In t st.timers × (id_of t.key ≢ id_of key)) ⊎ (new_timer key st ≡ t)
      → (0 < t.handle) × (t.handle < suc st.next_handle) × (t.due ≤ st.clock + debounce_ms)
  schedule_live t (inl (i, other)) = omega (arith, inv.live t i, inv.due_soon t i)
  schedule_live t (inr e) = rw (← e) (omega (arith, inv.positive))

  schedule_unique :
      (t u : Timer)
      → (In t st.timers × (id_of t.key ≢ id_of key)) ⊎ (new_timer key st ≡ t)
      → (In u st.timers × (id_of u.key ≢ id_of key)) ⊎ (new_timer key st ≡ u)
      → t.handle ≡ u.handle
      → t ≡ u
  schedule_unique t u (inl (i, _)) (inl (j, _)) e = inv.unique t u i j e
  schedule_unique t u (inl (i, _)) (inr q) e =
      absurd (omega (arith, (inv.live t i).1, ap (λ x. x.handle) q))
  schedule_unique t u (inr p) (inl (j, _)) e =
      absurd (omega (arith, (inv.live u j).1, ap (λ x. x.handle) p))
  schedule_unique t u (inr p) (inr q) e = sym p ∙ q

  schedule_pending :
      (k : Text)
      → get k (schedule_invalidate key st).pending
        ≡ (if id_of key =t k then some st.next_handle else get k st.pending)
  unfolding schedule_invalidate
  schedule_pending k = get-put k (id_of key) st.next_handle st.pending

  schedule_backed :
      (k : Text) (v : ℕ)
      → get k (schedule_invalidate key st).pending ≡ some v
      → (t : Timer) × In t (schedule_invalidate key st).timers × (t.handle ≡ v) × (id_of t.key ≡ k)
  schedule_backed k v e = elim (Bool-cases (id_of key =t k)) [
    | inl own ↦ (new_timer key st, In-schedule_new, handle_is own, =t_eq _ _ own)
    | inr other ↦
        let (t, i, h, q) = inv.backed k v (old other) in
        (t, In-schedule_old t i (λ p. apart other (sym p ∙ q)), h, q)
  ]
    where
      handle_is : (id_of key =t k) ≡ true → st.next_handle ≡ v
      handle_is own =
          let here : some st.next_handle ≡ some v = sym (schedule_pending k ∙ rw own) ∙ e in cc

      old : (id_of key =t k) ≡ false → get k st.pending ≡ some v
      old other = sym (schedule_pending k ∙ rw other) ∙ e

      apart : (id_of key =t k) ≡ false → id_of key ≢ k
      apart other q = let yes' : (id_of key =t k) ≡ true = rw q (=t_refl k) in cc

  -- Scheduling an invalidation keeps the map and the timers in agreement.
  pub schedule_invalidate-Inv : st.listening ≡ true → Inv (schedule_invalidate key st)
  unfolding schedule_invalidate
  schedule_invalidate-Inv on = record {
    positive = omega arith;
    live = λ t i. let h = schedule_live t (schedule-In t i) in (h.0, h.1);
    due_soon = λ t i. (schedule_live t (schedule-In t i)).2;
    filed = λ t i. schedule_filed t (schedule-In t i);
    backed = schedule_backed;
    unique = λ t u i j e. schedule_unique t u (schedule-In t i) (schedule-In u j) e;
    distinct = put-Distinct (id_of key) st.next_handle st.pending inv.distinct;
    quiet = λ off. cc;
  }
