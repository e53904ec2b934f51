-- ===== src/Stream/Steps.antt =====
-- web/src/lib/stream.ts: the invariant over every step, and so over every history.
use yafu.Base.{
  ℕ, ◌+◌, ◌<◌, ◌≡◌, ◌≢◌, refl, sym, ◌∙◌, subst, Bool, true, false, Option, none, some, Bool-cases,
  List, [], ◌∷◌, Text, ◌=t◌, =t_refl, In, In-keep, if◌then◌else◌, arith, inl, inr,
}
use yafu.Base.Entries.{get-values, get, get-remove, remove-Distinct, values}
use yafu.Stream.{
  Timer, Stream, QueryKey, id_of, clear_timeout, schedule_invalidate, fire, schedule_all, Parsed,
  malformed, null_value, event, state_of, invalidate_kind, invalidations, on_invalidate, mount,
  unmount, Step, arrives, waits, fires, unmounts, Reach, here, next, clear_all,
}
use yafu.Stream.Timers.{Inv, clear_timeout-In, In-clear_timeout}
use yafu.Stream.Invariant.{schedule_invalidate-Inv, different}

pub schedule_listening :
    (k : QueryKey) (st : Stream) → (schedule_invalidate k st).listening ≡ st.listening
unfolding schedule_invalidate
schedule_listening k st = refl

pub schedule_all-Inv :
    (ks : List QueryKey) (st : Stream) → Inv st → st.listening ≡ true → Inv (schedule_all ks st)
unfolding schedule_all
schedule_all-Inv [] st inv on = inv
schedule_all-Inv (k ∷ ks) st inv on =
    schedule_all-Inv ks (schedule_invalidate k st) (schedule_invalidate-Inv k st inv on)
      (schedule_listening k st ∙ on)

-- Every way of the handler schedules a list of keys, the empty one on an error.
pub on_invalidate-schedules :
    (p : Parsed) (st : Stream)
    → (ks : List QueryKey) × (state_of (on_invalidate p st) ≡ schedule_all ks st)
unfolding on_invalidate schedule_all
on_invalidate-schedules malformed st = ([], refl)
on_invalidate-schedules null_value st = ([], refl)
on_invalidate-schedules (event ev) st = kinds ev.kind (get ev.kind invalidations)
  where
    kinds :
        (k : Text) (o : Option (List QueryKey))
        → (ks : List QueryKey) × (state_of (invalidate_kind k o st) ≡ schedule_all ks st)
    kinds k none = ([], ground arith)
    kinds k (some ks) = (ks, refl)

module _ (t : Timer) (st : Stream) (inv : Inv st) (i : In t st.timers) where
  pub fire-In : (u : Timer) → In u (fire t st).timers → In u st.timers × (id_of u.key ≢ id_of t.key)
  unfolding fire
  fire-In u j = clear_timeout-In st inv (id_of t.key) t.handle u (inv.filed t i) j

  pub In-fire : (u : Timer) → In u st.timers → id_of u.key ≢ id_of t.key → In u (fire t st).timers
  unfolding fire
  In-fire u j other = In-clear_timeout st inv (id_of t.key) t.handle u (inv.filed t i) j other

  fire_pending :
      (k : Text) → get k (fire t st).pending ≡ (if id_of t.key =t k then none else get k st.pending)
  unfolding fire
  fire_pending k = get-remove k (id_of t.key) st.pending inv.distinct

  fire_backed :
      (k : Text) (v : ℕ)
      → get k (fire t st).pending ≡ some v
      → (u : Timer) × In u (fire t st).timers × (u.handle ≡ v) × (id_of u.key ≡ k)
  fire_backed k v e = elim (Bool-cases (id_of t.key =t k)) [
    | inl own ↦ let gone : none ≡ some v = sym (fire_pending k ∙ rw own) ∙ e in cc
    | inr other ↦
        let (u, j, h, q) = inv.backed k v (sym (fire_pending k ∙ rw other) ∙ e) in
        (u, In-fire u j (λ p. apart other (sym p ∙ q)), h, q)
  ]
    where
      apart : (id_of t.key =t k) ≡ false → id_of t.key ≢ k
      apart other q = let same : (id_of t.key =t k) ≡ true = rw q (=t_refl k) in cc

  pub fire-Inv : Inv (fire t st)
  unfolding fire
  fire-Inv = record {
    positive = inv.positive;
    live = λ u j. inv.live u (fire-In u j).0;
    due_soon = λ u j. inv.due_soon u (fire-In u j).0;
    filed = λ u j.
        let (k, other) = fire-In u j in
        fire_pending (id_of u.key)
        ∙ rw (different (id_of u.key) (id_of t.key) other) (inv.filed u k);
    backed = fire_backed;
    unique = λ u w j k e. inv.unique u w (fire-In u j).0 (fire-In w k).0 e;
    distinct = remove-Distinct (id_of t.key) st.pending inv.distinct;
    quiet = λ off. absurd (subst (In t) (inv.quiet off) i);
  }

clear_all-In :
    (u : Timer) (hs : List ℕ) (ts : List Timer)
    → In u (clear_all hs ts)
    → In u ts × ((h : ℕ) → In h hs → u.handle ≢ h)
unfolding clear_all clear_timeout
clear_all-In u [] ts i = (i, λ h j. elim j [ ])
clear_all-In u (g ∷ hs) ts i =
    let (j, other) = clear_all-In u hs (clear_timeout g ts) i in
    let (k, h) = In-keep _ u ts j in (k, both g (ground arith) other)
  where
    both :
        (g : ℕ)
        → u.handle ≢ g
        → ((h : ℕ) → In h hs → u.handle ≢ h)
        → (h : ℕ) → In h (g ∷ hs)
        → u.handle ≢ h
    both g first rest h (inl e) = subst (λ x. u.handle ≢ x) e first
    both g first rest h (inr j) = rest h j

nil_of_no_member : (ts : List Timer) → ((u : Timer) → In u ts → ⊥) → ts ≡ []
nil_of_no_member [] h = refl
nil_of_no_member (t ∷ ts) h = absurd (h t (inl refl))

-- The cleanup leaves no timer in the window.
pub unmount-timers : (st : Stream) → Inv st → (unmount st).timers ≡ []
unfolding unmount
unmount-timers st inv = nil_of_no_member _ λ u i.
    let (j, other) = clear_all-In u (values st.pending) st.timers i in
    other u.handle (get-values (id_of u.key) u.handle st.pending (inv.filed u j)) refl

-- A stream with no timer and nothing pending.
idle-Inv : (st : Stream) → 0 < st.next_handle → st.timers ≡ [] → st.pending ≡ [] → Inv st
unfolding get
idle-Inv st p t e = record {
  positive = p;
  live = λ u i. elim (rw t at i) [ ];
  due_soon = λ u i. elim (rw t at i) [ ];
  filed = λ u i. elim (rw t at i) [ ];
  backed = λ k v h. let missing : none ≡ some v = rw e at h in cc;
  unique = λ u w i j h. elim (rw t at i) [ ];
  distinct = rw e tt;
  quiet = λ off. t;
}

unmount-Inv : (st : Stream) → Inv st → Inv (unmount st)
unfolding unmount
unmount-Inv st inv = idle-Inv (unmount st) inv.positive (unmount-timers st inv) refl

waits-Inv : (d : ℕ) (st : Stream) → Inv st → Inv (record st { clock = st.clock + d })
waits-Inv d st inv = record {
  positive = inv.positive;
  live = inv.live;
  due_soon = λ u i. omega (arith, inv.due_soon u i);
  filed = inv.filed;
  backed = inv.backed;
  unique = inv.unique;
  distinct = inv.distinct;
  quiet = inv.quiet;
}

-- Every step keeps the map of pending invalidations and the window's timers in agreement: each
-- entry of the map is the handle of a live timer for its key, each timer is filed under its key,
-- and after the cleanup there is none.
pub Step-Inv : {st u : Stream} → Step st u → Inv st → Inv u
Step-Inv {st} (arrives p on) inv =
    let (ks, e) = on_invalidate-schedules p st in rw e (schedule_all-Inv ks st inv on)
Step-Inv {st} (waits d) inv = waits-Inv d st inv
Step-Inv {st} (fires t i due) inv = fire-Inv t st inv i
Step-Inv {st} unmounts inv = unmount-Inv st inv

-- Where the map of pending invalidations and the timers agree, they agree after every sequence of
-- steps: every entry of the map is the handle of a timer for its key, every timer is filed under
-- its key and is due within 300 ms, no two timers share a handle, and none is left without the
-- subscription.
pub Reach-Inv : {st u : Stream} → Inv st → Reach st u → Inv u
Reach-Inv inv here = inv
Reach-Inv inv (next r s) = Step-Inv s (Reach-Inv inv r)

pub mount-Inv : (now : ℕ) (opened : Bool) → Inv (mount now opened)
mount-Inv now opened = idle-Inv (mount now opened) (omega arith) refl refl
