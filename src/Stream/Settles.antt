-- ===== src/Stream/Settles.antt =====
-- web/src/lib/stream.ts: when no event arrives, the timers run out.
use yafu.Base.{
  ℕ, zero, suc, ◌+◌, ◌≤◌, ◌<◌, ◌≡◌, refl, sym, ap, ◌∙◌, subst, Bool, true, false, not, ◌==◌,
  Bool-cases, some, List, [], ◌∷◌, ◌=t◌, =t_eq, =t_ne, In, keep, length, In-append_right,
  In-append_left, arith, inl, inr, ◌⊎◌,
}
use yafu.Base.Entries.{get}
use yafu.Stream.{Timer, Stream, QueryKey, id_of, debounce_ms, clear_timeout, fire, waits}
use yafu.Stream.Timers.{Inv}
use yafu.Stream.Steps.{fire-In, In-fire, fire-Inv, Step-Inv}

length-keep-le : (p : Timer → Bool) (ts : List Timer) → length (keep p ts) ≤ length ts
length-keep-le p [] = omega arith
length-keep-le p (t ∷ ts) = ground (arith, length-keep-le p ts)

length-keep-lt :
    (p : Timer → Bool) (t : Timer) (ts : List Timer)
    → In t ts
    → p t ≡ false
    → length (keep p ts) < length ts
length-keep-lt p t [] i h = elim i [ ]
length-keep-lt p t (u ∷ ts) (inl e) h =
    let q : p u ≡ false = subst (λ x. p x ≡ false) (sym e) h in
    rw q (omega (arith, length-keep-le p ts))
length-keep-lt p t (u ∷ ts) (inr i) h = elim (Bool-cases (p u)) [
  | inl q ↦ rw q (omega (arith, length-keep-lt p t ts i h))
  | inr q ↦ rw q (omega (arith, length-keep-le p ts))
]

-- Each firing leaves fewer timers.
pub length-fire :
    (t : Timer) (st : Stream) → In t st.timers → length (fire t st).timers < length st.timers
unfolding fire clear_timeout
length-fire t st i = length-keep-lt (λ x. not (x.handle == t.handle)) t st.timers i (ground arith)

-- Any run of the callbacks while no event arrives and the component stays mounted: `n` timers that
-- are due fire, in any order, one after the other.
pub data Firings (st : Stream) : ℕ → Stream → Type 0 where
  none_yet : Firings st 0 st
  one_more :
      {n : ℕ} {u : Stream} (t : Timer)
      → Firings st n u
      → In t u.timers
      → t.due ≤ u.clock
      → Firings st (suc n) (fire t u)

module _ (st : Stream) (inv : Inv st) (t : Timer) (i : In t st.timers) where
  fired_key :
      (u : Timer) → In u st.timers → In u (fire t st).timers ⊎ In u.key (fire t st).invalidated
  unfolding fire
  fired_key u j = elim (Bool-cases (id_of u.key =t id_of t.key)) [
    | inl e ↦ inr (In-append_right u.key st.invalidated (t.key ∷ []) (inl (same e)))
    | inr e ↦ inl (In-fire t st inv i u j (=t_ne _ _ e))
  ]
    where
      some_inj : {m n : ℕ} → some m ≡ some n → m ≡ n
      some_inj q = cc

      handles : (id_of u.key =t id_of t.key) ≡ true → t.handle ≡ u.handle
      handles e =
          some_inj
            (sym (inv.filed t i) ∙ ap (λ k. get k st.pending) (sym (=t_eq _ _ e)) ∙ inv.filed u j)

      same : (id_of u.key =t id_of t.key) ≡ true → t.key ≡ u.key
      same e = ap (λ (x : Timer). x.key) (inv.unique t u i j (handles e))

  fired_kept : (k : QueryKey) → In k st.invalidated → In k (fire t st).invalidated
  unfolding fire
  fired_kept k j = In-append_left k st.invalidated (t.key ∷ []) j

  fire_clock : (fire t st).clock ≡ st.clock
  unfolding fire
  fire_clock = refl

abbrev AllDue : Stream → Type 0
AllDue st = (t : Timer) → In t st.timers → t.due ≤ st.clock

fire-AllDue :
    (st : Stream) (inv : Inv st) (t : Timer) (i : In t st.timers) → AllDue st → AllDue (fire t st)
fire-AllDue st inv t i due u j = rw (fire_clock st inv t i) (due u (fire-In t st inv i u j).0)

-- What holds in each state of such a run.
record Running (st : Stream) (n : ℕ) (u : Stream) : Type 0 where
  agrees : Inv u
  fewer : n + length u.timers ≤ length st.timers
  all_due : AllDue u
  delivered : (t : Timer) → In t st.timers → In t u.timers ⊎ In t.key u.invalidated

Running-next :
    (st : Stream) (n : ℕ) (u : Stream) (t : Timer) (i : In t u.timers)
    → Running st n u
    → Running st (suc n) (fire t u)
Running-next st n u t i r = record {
  agrees = fire-Inv t u r.agrees i;
  fewer = omega (arith, length-fire t u i, r.fewer);
  all_due = fire-AllDue u r.agrees t i r.all_due;
  delivered = λ v j. elim (r.delivered v j) [
    | inl k ↦ fired_key u r.agrees t i v k
    | inr k ↦ inr (fired_kept u r.agrees t i v.key k)
  ];
}

Firings-Running :
    (st : Stream) → Inv st → AllDue st → (n : ℕ) (u : Stream) → Firings st n u → Running st n u
Firings-Running st inv due zero u none_yet = record {
  agrees = inv;
  fewer = omega arith;
  all_due = due;
  delivered = λ t i. inl i;
}
Firings-Running st inv due (suc n) w (one_more t r i d) =
    Running-next st n _ t i (Firings-Running st inv due n _ r)

-- The stream comes to rest, in whatever order the timers fire: from a state where the map and the
-- timers agree, if 300 ms pass in which no event arrives and then timers fire one after the other, each
-- run of `n` firings leaves at least `n` timers fewer, so that it has no more firings than there were
-- timers; each timer that is left may fire, so that a run stops only when none is left; and of
-- each timer that there was, either it is left or its key has been invalidated.
pub quiescence :
    (st : Stream) (n : ℕ) (u : Stream)
    → Inv st
    → Firings (record st { clock = st.clock + debounce_ms }) n u
    → (n + length u.timers ≤ length st.timers)
      × ((t : Timer) → In t u.timers → t.due ≤ u.clock)
      × ((t : Timer) → In t st.timers → In t u.timers ⊎ In t.key u.invalidated)
quiescence st n u inv r =
    let run =
      Firings-Running (record st { clock = st.clock + debounce_ms })
        (Step-Inv (waits debounce_ms) inv) (λ t i. inv.due_soon t i) n u r in
    (run.fewer, run.all_due, run.delivered)
