-- ===== src/Stream/Timers.antt =====
-- web/src/lib/stream.ts: the pending map and the window's timers describe one another, and what
-- clearing a timer leaves.
use yafu.Base.{
  inr, inl, ℕ, ◌+◌, ◌≤◌, ◌<◌, ◌≡◌, ◌≢◌, sym, ap, ◌∙◌, true, false, not, none, some, Option-cases,
  [], Text, ◌==◌, In, In-keep, keep-In, arith,
}
use yafu.Base.Entries.{get, Distinct}
use yafu.Stream.{Timer, Stream, id_of, debounce_ms, clear_timeout, clear_existing}

pub record Inv (st : Stream) : Type 0 where
  pub positive : 0 < st.next_handle
  pub live : (t : Timer) → In t st.timers → (0 < t.handle) × (t.handle < st.next_handle)
  pub due_soon : (t : Timer) → In t st.timers → t.due ≤ st.clock + debounce_ms
  pub filed : (t : Timer) → In t st.timers → get (id_of t.key) st.pending ≡ some t.handle
  pub backed :
      (k : Text) (v : ℕ)
      → get k st.pending ≡ some v
      → (t : Timer) × In t st.timers × (t.handle ≡ v) × (id_of t.key ≡ k)
  pub unique : (t u : Timer) → In t st.timers → In u st.timers → t.handle ≡ u.handle → t ≡ u
  pub distinct : Distinct st.pending
  pub quiet : st.listening ≡ false → st.timers ≡ []

cleared : (t : Timer) (v : ℕ) → not (t.handle == v) ≡ true → t.handle ≢ v
cleared t v h = ground arith

uncleared : (t : Timer) (v : ℕ) → t.handle ≢ v → not (t.handle == v) ≡ true
uncleared t v h = ground arith

module _ (st : Stream) (inv : Inv st) where
  -- Clearing the timer filed under a key drops the timers of that key, and no other.
  pub clear_timeout-In :
      (k : Text) (v : ℕ) (t : Timer)
      → get k st.pending ≡ some v
      → In t (clear_timeout v st.timers)
      → In t st.timers × (id_of t.key ≢ k)
  unfolding clear_timeout
  clear_timeout-In k v t e i =
      let (j, h) = In-keep _ t st.timers i in
      (
        j,
        λ same.
            cleared t v h (some_inj (sym (inv.filed t j) ∙ ap (λ x. get x st.pending) same ∙ e)),
      )
    where
      some_inj : {m n : ℕ} → some m ≡ some n → m ≡ n
      some_inj q = cc

  pub In-clear_timeout :
      (k : Text) (v : ℕ) (t : Timer)
      → get k st.pending ≡ some v
      → In t st.timers
      → id_of t.key ≢ k
      → In t (clear_timeout v st.timers)
  unfolding clear_timeout
  In-clear_timeout k v t e i other =
      let (u, j, h, own) = inv.backed k v e in
      keep-In _ t st.timers i
        (uncleared t v λ q. other (ap (λ x. id_of x.key) (inv.unique t u i j (q ∙ sym h)) ∙ own))

  filed_positive : (k : Text) (v : ℕ) → get k st.pending ≡ some v → 0 < v
  filed_positive k v e = let (u, j, h, _) = inv.backed k v e in rw (← h) (inv.live u j).0

  clear_existing-some :
      (k : Text) (v : ℕ)
      → get k st.pending ≡ some v
      → clear_existing (get k st.pending) st.timers ≡ clear_timeout v st.timers
  unfolding clear_existing
  clear_existing-some k v e = rw e (ground (arith, filed_positive k v e))

  pub clear_existing-In :
      (k : Text) (t : Timer)
      → In t (clear_existing (get k st.pending) st.timers)
      → In t st.timers × (id_of t.key ≢ k)
  unfolding clear_existing
  clear_existing-In k t i = elim (Option-cases (get k st.pending)) [
    | inl e ↦ unfiled e (rw e at i)
    | inr (v, e) ↦ clear_timeout-In k v t e (rw (clear_existing-some k v e) at i)
  ]
    where
      unfiled : get k st.pending ≡ none → In t st.timers → In t st.timers × (id_of t.key ≢ k)
      unfiled e j = (j, λ same. missing (sym (inv.filed t j) ∙ ap (λ x. get x st.pending) same ∙ e))
        where
          missing : {n : ℕ} → some n ≡ none → ⊥
          missing q = cc

  pub In-clear_existing :
      (k : Text) (t : Timer)
      → In t st.timers
      → id_of t.key ≢ k
      → In t (clear_existing (get k st.pending) st.timers)
  unfolding clear_existing
  In-clear_existing k t i other = elim (Option-cases (get k st.pending)) [
    | inl e ↦ rw e i
    | inr (v, e) ↦ rw (clear_existing-some k v e) (In-clear_timeout k v t e i other)
  ]
