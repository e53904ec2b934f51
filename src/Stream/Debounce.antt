-- ===== src/Stream/Debounce.antt =====
-- web/src/lib/stream.ts: bursts of events are coalesced.
use yafu.Base.{
  ℕ, ◌+◌, suc, ◌≤◌, ◌<◌, ◌≡◌, ◌≢◌, refl, sym, ap, ◌∙◌, subst, true, false, some, Bool-cases, List,
  [], ◌∷◌, ◌++◌, Text, ◌=t◌, =t_eq, In, if◌then◌else◌, arith, inl, inr, ◌⊎◌,
}
use yafu.Base.Entries.{get}
use yafu.Stream.{
  Timer, Stream, QueryKey, id_of, debounce_ms, schedule_invalidate, fire, schedule_all, Parsed,
  WatchEvent, event, state_of, on_invalidate, invalidate_kind, invalidations, unmount, Step,
  arrives, waits, fires, unmounts, Reach, here, next,
}
use yafu.Stream.Timers.{Inv}
use yafu.Stream.Invariant.{schedule-In, new_timer, schedule_invalidate-Inv}
use yafu.Stream.Steps.{
  schedule_all-Inv, fire-Inv, on_invalidate-schedules, fire-In, unmount-timers, Step-Inv,
  schedule_listening,
}

-- No key has two timers: in a state where the map and the timers agree, two timers of one key are
-- the same timer.
pub one_timer :
    (st : Stream)
    → Inv st
    → (t u : Timer) → In t st.timers
    → In u st.timers
    → id_of t.key ≡ id_of u.key
    → t ≡ u
one_timer st inv t u i j e =
    let same : some t.handle ≡ some u.handle =
      sym (inv.filed t i) ∙ ap (λ k. get k st.pending) e ∙ inv.filed u j in
    inv.unique t u i j (cc)

-- No timer of the key may fire before the time given.
abbrev pub Held : Text → ℕ → Stream → Type 0
Held q time st = (t : Timer) → In t st.timers → id_of t.key ≡ q → time ≤ t.due

schedule_clock : (k : QueryKey) (st : Stream) → (schedule_invalidate k st).clock ≡ st.clock
unfolding schedule_invalidate
schedule_clock k st = refl

schedule_Held :
    (q : Text) (time : ℕ) (k : QueryKey) (st : Stream)
    → Inv st
    → time ≤ st.clock + debounce_ms
    → Held q time st
    → Held q time (schedule_invalidate k st)
schedule_Held q time k st inv late held t i own = due_late (schedule-In k st inv t i)
  where
    due_late : (In t st.timers × (id_of t.key ≢ id_of k)) ⊎ (new_timer k st ≡ t) → time ≤ t.due
    due_late (inl (j, _)) = held t j own
    due_late (inr e) = omega (arith, ap (λ x. x.due) e)

schedule_self_Held :
    (k : QueryKey) (st : Stream)
    → Inv st
    → Held (id_of k) (st.clock + debounce_ms) (schedule_invalidate k st)
schedule_self_Held k st inv t i own = due_late (schedule-In k st inv t i)
  where
    due_late :
        (In t st.timers × (id_of t.key ≢ id_of k)) ⊎ (new_timer k st ≡ t)
        → st.clock + debounce_ms ≤ t.due
    due_late (inl (j, other)) = absurd (other own)
    due_late (inr e) = omega (arith, ap (λ x. x.due) e)

schedule_all-Held :
    (q : Text) (time : ℕ) (ks : List QueryKey) (st : Stream)
    → Inv st
    → st.listening ≡ true
    → time ≤ st.clock + debounce_ms
    → Held q time st
    → Held q time (schedule_all ks st)
unfolding schedule_all
schedule_all-Held q time [] st inv on late held = held
schedule_all-Held q time (k ∷ ks) st inv on late held =
    schedule_all-Held q time ks (schedule_invalidate k st) (schedule_invalidate-Inv k st inv on)
      (schedule_listening k st ∙ on) (rw (schedule_clock k st) late)
      (schedule_Held q time k st inv late held)

arrival_Held :
    (k : QueryKey) (ks : List QueryKey) (st : Stream)
    → In k ks
    → Inv st
    → st.listening ≡ true
    → Held (id_of k) (st.clock + debounce_ms) (schedule_all ks st)
unfolding schedule_all schedule_invalidate
arrival_Held k [] st i inv on = elim i [ ]
arrival_Held k (j ∷ ks) st (inl e) inv on =
    let started : Held (id_of k) (st.clock + debounce_ms) (schedule_invalidate j st) =
      subst (λ x. Held (id_of x) (st.clock + debounce_ms) (schedule_invalidate j st)) e
        (schedule_self_Held j st inv) in
    schedule_all-Held (id_of k) (st.clock + debounce_ms) ks (schedule_invalidate j st)
      (schedule_invalidate-Inv j st inv on) (schedule_listening j st ∙ on)
      (rw (schedule_clock j st) (omega arith)) started
arrival_Held k (j ∷ ks) st (inr i) inv on = rw (schedule_clock j st) at (
    arrival_Held k ks (schedule_invalidate j st) i (schedule_invalidate-Inv j st inv on)
      (schedule_listening j st ∙ on))

-- How often a key was invalidated.
abbrev pub count : Text → List QueryKey → ℕ
count q [] = 0
count q (k ∷ ks) = if id_of k =t q then suc (count q ks) else count q ks

count-append :
    (q : Text) (ks : List QueryKey) (k : QueryKey)
    → (id_of k =t q) ≡ false
    → count q (ks ++ k ∷ []) ≡ count q ks
count-append q [] k e = rw e
count-append q (j ∷ ks) k e = ground (arith, count-append q ks k e)

pub schedule_all_same :
    (ks : List QueryKey) (st : Stream)
    → ((schedule_all ks st).clock ≡ st.clock) × ((schedule_all ks st).invalidated ≡ st.invalidated)
unfolding schedule_all schedule_invalidate
schedule_all_same [] st = (refl, refl)
schedule_all_same (k ∷ ks) st = schedule_all_same ks (schedule_invalidate k st)

-- What holds up to the end of the quiet time.
record Quiet (q : Text) (time n : ℕ) (st : Stream) : Type 0 where
  inv : Inv st
  late : time ≤ st.clock + debounce_ms
  held : Held q time st
  counted : st.clock < time → count q st.invalidated ≡ n

arrives-Quiet :
    {q : Text} {time n : ℕ} {st : Stream} (p : Parsed)
    → st.listening ≡ true
    → Quiet q time n st
    → Quiet q time n (state_of (on_invalidate p st))
arrives-Quiet {q} {time} {n} {st} p on c =
    let (ks, e) = on_invalidate-schedules p st in
    let (same_clock, same_calls) = schedule_all_same ks st in
    rw e (record {
      inv = schedule_all-Inv ks st c.inv on;
      late = rw same_clock c.late;
      held = schedule_all-Held q time ks st c.inv on c.late c.held;
      counted = rw same_clock (rw same_calls c.counted);
    })

fires-Quiet :
    {q : Text} {time n : ℕ} {st : Stream} (t : Timer)
    → In t st.timers
    → t.due ≤ st.clock
    → Quiet q time n st
    → Quiet q time n (fire t st)
unfolding fire
fires-Quiet {q} {time} {n} {st} t i due c = record {
  inv = fire-Inv t st c.inv i;
  late = c.late;
  held = λ u j. c.held u (fire-In t st c.inv i u j).0;
  counted = λ early. elim (Bool-cases (id_of t.key =t q)) [
    | inl own ↦ absurd (omega (arith, early, due, c.held t i (=t_eq _ _ own)))
    | inr other ↦ count-append q st.invalidated t.key other ∙ c.counted early
  ];
}

unmounts-Quiet :
    {q : Text} {time n : ℕ} {st : Stream} → Quiet q time n st → Quiet q time n (unmount st)
unfolding unmount
unmounts-Quiet {q} {time} {n} {st} c = record {
  inv = Step-Inv unmounts c.inv;
  late = c.late;
  held = λ u j. elim (rw (unmount-timers st c.inv) at j) [ ];
  counted = c.counted;
}

Step-Quiet :
    {q : Text} {time n : ℕ} {st u : Stream} → Step st u → Quiet q time n st → Quiet q time n u
Step-Quiet (arrives p on) c = arrives-Quiet p on c
Step-Quiet {st = st} (waits d) c = record {
  inv = Step-Inv (waits d) c.inv;
  late = omega (arith, c.late);
  held = c.held;
  counted = λ early. c.counted (omega (arith, early));
}
Step-Quiet (fires t i due) c = fires-Quiet t i due c
Step-Quiet unmounts c = unmounts-Quiet c

Reach-Quiet :
    {q : Text} {time n : ℕ} {st u : Stream} → Reach st u → Quiet q time n st → Quiet q time n u
Reach-Quiet here c = c
Reach-Quiet (next r s) c = Step-Quiet s (Reach-Quiet r c)

event-Quiet :
    (ev : WatchEvent) (ks : List QueryKey) (k : QueryKey) (st : Stream)
    → get ev.kind invalidations ≡ some ks
    → In k ks
    → Inv st
    → st.listening ≡ true
    → Quiet
        (id_of k)
        (st.clock + debounce_ms)
        (count (id_of k) st.invalidated)
        (state_of (on_invalidate (event ev) st))
unfolding on_invalidate invalidate_kind
event-Quiet ev ks k st e i inv on =
    let (same_clock, same_calls) = schedule_all_same ks st in
    rw e (record {
      inv = schedule_all-Inv ks st inv on;
      late = rw same_clock (omega arith);
      held = arrival_Held k ks st i inv on;
      counted = λ early. rw same_calls refl;
    })

-- A burst is coalesced: where the component listens and the map and the timers agree, and an event
-- arrives whose kind's entry in the table names a key, the key is not invalidated in the 300 ms
-- after the event, whatever was pending for it before and whatever happens meanwhile.
pub debounce :
    (ev : WatchEvent) (ks : List QueryKey) (k : QueryKey) (st u : Stream)
    → get ev.kind invalidations ≡ some ks
    → In k ks
    → Inv st
    → st.listening ≡ true
    → Reach (state_of (on_invalidate (event ev) st)) u
    → u.clock < st.clock + debounce_ms
    → count (id_of k) u.invalidated ≡ count (id_of k) st.invalidated
debounce ev ks k st u e i inv on r early =
    (Reach-Quiet r (event-Quiet ev ks k st e i inv on)).counted early
