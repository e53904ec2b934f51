-- ===== src/Stream/Delivery.antt =====
-- web/src/lib/stream.ts: a scheduled invalidation is delivered, unless the cleanup runs first.
use yafu.Base.{
  =t_ne, subst, ap, In-append_right, ◌+◌, ◌≤◌, ◌≡◌, refl, sym, ◌∙◌, true, false, some, Bool-cases,
  List, [], ◌∷◌, ◌++◌, Text, ◌=t◌, =t_eq, In, arith, inl, inr, ◌⊎◌,
}
use yafu.Base.Entries.{get}
use yafu.Stream.Debounce.{schedule_all_same}
use yafu.Stream.Steps.{
  schedule_all-Inv, In-fire, schedule_listening, on_invalidate-schedules, Step-Inv, Reach-Inv,
}
use yafu.Stream.Invariant.{In-schedule_old, In-schedule_new, schedule_invalidate-Inv, new_timer}
use yafu.Stream.{
  returns, Timer, Stream, QueryKey, id_of, debounce_ms, schedule_invalidate, fire, schedule_all,
  WatchEvent, event, on_invalidate, invalidate_kind, invalidations, unmount, Step, arrives, waits,
  fires, unmounts, Reach, here, next,
}
use yafu.Stream.Timers.{Inv}

-- A timer for the key of `id` is in the window.
record Waiting (id : Text) (st : Stream) : Type 0 where
  timer : Timer
  member : In timer st.timers
  own : id_of timer.key ≡ id

schedule_Waiting :
    (id : Text) (k : QueryKey) (st : Stream)
    → Inv st
    → Waiting id st
    → Waiting id (schedule_invalidate k st)
schedule_Waiting id k st inv w = elim (Bool-cases (id_of w.timer.key =t id_of k)) [
  | inl e ↦ record {
    timer = new_timer k st;
    member = In-schedule_new k st inv;
    own = sym (=t_eq _ _ e) ∙ w.own;
  }
  | inr e ↦ record {
    timer = w.timer;
    member = In-schedule_old k st inv w.timer w.member (=t_ne _ _ e);
    own = w.own;
  }
]

schedule_all-Waiting :
    (id : Text) (ks : List QueryKey) (st : Stream)
    → Inv st
    → st.listening ≡ true
    → Waiting id st
    → Waiting id (schedule_all ks st)
unfolding schedule_all
schedule_all-Waiting id [] st inv on w = w
schedule_all-Waiting id (k ∷ ks) st inv on w =
    schedule_all-Waiting id ks (schedule_invalidate k st) (schedule_invalidate-Inv k st inv on)
      (schedule_listening k st ∙ on) (schedule_Waiting id k st inv w)

-- What a step does to a key that has a timer.
abbrev pub Kept : Timer → Stream → Stream → Type 0
Kept t st u =
    ((w : Timer) × In w u.timers × (id_of w.key ≡ id_of t.key))
    ⊎ (((w : Timer) × (id_of w.key ≡ id_of t.key) × (u.invalidated ≡ st.invalidated ++ w.key ∷ []))
        ⊎ (u.listening ≡ false))

kept : (t : Timer) (st u : Stream) → Waiting (id_of t.key) u → Kept t st u
kept t st u w = inl (w.timer, w.member, w.own)

-- No invalidation is lost: after each step of a state where the map and the timers agree, a key
-- that had a timer still has one, or the step has just invalidated it, or the component is
-- unmounted.
pub Step-Kept : (t : Timer) (st u : Stream) → Inv st → In t st.timers → Step st u → Kept t st u
unfolding fire unmount
Step-Kept t st u inv i (arrives p on) =
    let (ks, e) = on_invalidate-schedules p st in
    let w =
      schedule_all-Waiting (id_of t.key) ks st inv on
        (record { timer = t; member = i; own = refl }) in
    rw e (kept t st (schedule_all ks st) w)
Step-Kept t st u inv i (waits d) = inl (t, i, refl)
Step-Kept t st u inv i (fires f j due) = elim (Bool-cases (id_of t.key =t id_of f.key)) [
  | inl e ↦ inr (inl (f, sym (=t_eq _ _ e), refl))
  | inr e ↦ inl (t, In-fire f st inv j t i (=t_ne _ _ e), refl)
]
Step-Kept t st u inv i unmounts = inr (inr refl)

-- An invalidation that waits can be made within 300 ms: from a state where the map and the timers
-- agree, each timer's key is invalidated in a state that is reached no more than 300 ms later.
pub delivery :
    (t : Timer) (st : Stream)
    → Inv st
    → In t st.timers
    → (u : Stream) × Reach st u × In t.key u.invalidated × (u.clock ≤ st.clock + debounce_ms)
unfolding fire
delivery t st inv i =
    let later : Stream = record st { clock = st.clock + debounce_ms } in
    (
      fire t later,
      next (next here (waits debounce_ms)) (fires t i (inv.due_soon t i)),
      In-append_right t.key st.invalidated _ (inl refl),
      omega arith,
    )

schedule_all_new :
    (ks : List QueryKey) (k : QueryKey) (st : Stream)
    → Inv st
    → st.listening ≡ true
    → In k ks
    → Waiting (id_of k) (schedule_all ks st)
unfolding schedule_all
schedule_all_new [] k st inv on i = elim i [ ]
schedule_all_new (j ∷ ks) k st inv on (inl e) =
    schedule_all-Waiting (id_of k) ks (schedule_invalidate j st)
      (schedule_invalidate-Inv j st inv on) (schedule_listening j st ∙ on)
      (record { timer = new_timer j st; member = In-schedule_new j st inv; own = ap id_of e })
schedule_all_new (j ∷ ks) k st inv on (inr i) =
    schedule_all_new ks k (schedule_invalidate j st) (schedule_invalidate-Inv j st inv on)
      (schedule_listening j st ∙ on) i

-- An event schedules every invalidation of its kind: when an event arrives at a listening state
-- where the map and the timers agree, each key of its kind's entry in the table has a timer after
-- it, the handler returns, and the timer is due no later than 300 ms after the event.
pub arrival :
    (ev : WatchEvent) (ks : List QueryKey) (k : QueryKey) (st : Stream)
    → get ev.kind invalidations ≡ some ks
    → In k ks
    → Inv st
    → st.listening ≡ true
    → (u : Stream) × (on_invalidate (event ev) st ≡ returns u)
      × (t : Timer) × In t u.timers
      × (id_of t.key ≡ id_of k)
      × (t.due ≤ st.clock + debounce_ms)
unfolding on_invalidate invalidate_kind
arrival ev ks k st e i inv on =
    let w = schedule_all_new ks k st inv on i in
    let (same_clock, _) = schedule_all_same ks st in
    (
      schedule_all ks st,
      rw e refl,
      w.timer,
      w.member,
      w.own,
      rw same_clock at ((schedule_all-Inv ks st inv on).due_soon w.timer w.member),
    )

silent-Step :
    {st u : Stream}
    → Step st u
    → Inv st
    → st.listening ≡ false
    → (u.listening ≡ false) × (u.invalidated ≡ st.invalidated)
unfolding fire unmount
silent-Step (arrives p on) inv off = let stopped : true ≡ false = sym on ∙ off in cc
silent-Step (waits d) inv off = (off, refl)
silent-Step (fires t i due) inv off = absurd (subst (In t) (inv.quiet off) i)
silent-Step unmounts inv off = (refl, refl)

silent :
    {st u : Stream}
    → Reach st u
    → Inv st
    → st.listening ≡ false
    → (u.listening ≡ false) × (u.invalidated ≡ st.invalidated)
silent here inv off = (off, refl)
silent (next r s) inv off =
    let (off', same) = silent r inv off in
    let (off'', same') = silent-Step s (Reach-Inv inv r) off' in (off'', same' ∙ same)

-- The cleanup is final: after it, in whatever order the rest happens, nothing is invalidated.
pub teardown : (st u : Stream) → Inv st → Reach (unmount st) u → u.invalidated ≡ st.invalidated
unfolding unmount
teardown st u inv r = (silent r (Step-Inv unmounts inv) refl).1
