-- ===== src/Stream/Tests.antt =====
-- web/src/lib/stream.ts: runs at concrete inputs.
use yafu.Base.{
  ◌⊎◌, length, ◌+◌, ◌≤◌, inl, ◌=t◌, In, ℕ, ◌≡◌, refl, true, some, [], ◌∷◌, codes, arith,
}
use yafu.Base.Entries.{get}
use yafu.Stream.Steps.{mount-Inv, Reach-Inv, Step-Inv}
use yafu.Stream.Debounce.{debounce, count}
use yafu.Stream.Delivery.{Step-Kept, teardown, Kept}
use yafu.Stream.{
  Timer, Stream, QueryKey, id_of, schedule_invalidate, fire, schedule_all, WatchEvent, event,
  state_of, on_invalidate, invalidate_kind, invalidations, mount, unmount, arrives, waits, fires,
  unmounts, here, next, clear_existing,
}
use yafu.Stream.Settles.{none_yet, one_more, quiescence}
use yafu.Stream.Timers.{Inv}

abbrev opened : Stream
opened = mount 1000 true

abbrev alert_event : WatchEvent
alert_event = record {
  cluster = codes "prod";
  kind = codes "Alert";
  verb = codes "updated";
  namespace = some (codes "flux-system");
  name = codes "slack";
}

abbrev alerts_key : QueryKey
alerts_key = codes "alerts" ∷ []

abbrev after : Stream
after = state_of (on_invalidate (event alert_event) opened)

after-Inv : Inv after
after-Inv = Step-Inv (arrives (event alert_event) refl) (mount-Inv 1000 true)

listening_after : after.listening ≡ true
unfolding on_invalidate invalidate_kind invalidations get schedule_all schedule_invalidate ◌=t◌
listening_after = refl

in_table : get alert_event.kind invalidations ≡ some (alerts_key ∷ [])
unfolding invalidations get ◌=t◌
in_table = refl

abbrev pending_alerts : Timer
pending_alerts = record { handle = 1; due = 1300; key = alerts_key }

pending_after : In pending_alerts after.timers
unfolding on_invalidate invalidate_kind invalidations get schedule_all schedule_invalidate
    clear_existing ◌=t◌
pending_after = inl refl

clock_after : after.clock ≡ 1000
unfolding on_invalidate invalidate_kind invalidations get schedule_all schedule_invalidate ◌=t◌
clock_after = refl

abbrev later : ℕ → Stream
later d = record after { clock = after.clock + d }

debounce_example :
    count (id_of alerts_key) (later 200).invalidated ≡ count (id_of alerts_key) opened.invalidated
debounce_example =
    debounce alert_event (alerts_key ∷ []) alerts_key opened (later 200) in_table (inl refl)
      (mount-Inv 1000 true) refl (next here (waits 200)) (omega (arith, clock_after))

due_later : pending_alerts.due ≤ (later 300).clock
due_later = omega (arith, clock_after)

Step-Kept_example : Kept pending_alerts (later 300) (fire pending_alerts (later 300))
Step-Kept_example =
    Step-Kept pending_alerts (later 300) (fire pending_alerts (later 300))
      (Step-Inv (waits 300) after-Inv) pending_after (fires pending_alerts pending_after due_later)

teardown_example : (unmount after).invalidated ≡ after.invalidated
teardown_example = teardown after (unmount after) after-Inv here

Reach-Inv_example : Inv (unmount after)
Reach-Inv_example =
    Reach-Inv (mount-Inv 1000 true) (next (next here (arrives (event alert_event) refl)) unmounts)

quiescence_example :
    (1 + length (fire pending_alerts (later 300)).timers ≤ length after.timers)
    × ((t : Timer)
        → In t (fire pending_alerts (later 300)).timers
        → t.due ≤ (fire pending_alerts (later 300)).clock)
    × ((t : Timer)
        → In t after.timers
        → In t (fire pending_alerts (later 300)).timers
          ⊎ In t.key (fire pending_alerts (later 300)).invalidated)
quiescence_example =
    quiescence after 1 (fire pending_alerts (later 300)) after-Inv
      (one_more pending_alerts none_yet pending_after due_later)
