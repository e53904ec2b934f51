-- ===== src/Stream.antt =====
-- web/src/lib/stream.ts: the subscription to /api/v1/stream, which turns watch events into delayed
-- invalidations of cached queries. The window's timers, the clock and the calls of
-- `invalidateQueries` are part of the state; an event that arrives is a value.
pub mod Timers
pub mod Invariant
pub mod Steps
pub mod Debounce
pub mod Delivery
pub mod Settles
mod Tests
use yafu.Base.{
  ℕ, ◌+◌, suc, ◌≤◌, ◌≡◌, Bool, true, false, not, Option, none, some, List, [], ◌∷◌, ◌++◌, Text,
  codes, ◌=t◌, has, join, ◌==◌, keep, In, if◌then◌else◌,
}
use yafu.Base.Entries.{Entries, get, put, remove, values}

abbrev pub QueryKey : Type 0
QueryKey = List Text

pub record WatchEvent : Type 0 where
  pub cluster : Text
  pub kind : Text
  pub verb : Text
  pub namespace : Option Text
  pub name : Text

abbrev app_keys : List QueryKey
app_keys =
    (codes "applications" ∷ [])
    ∷ (codes "app-tree" ∷ [])
    ∷ (codes "app-events" ∷ [])
    ∷ (codes "app-history" ∷ [])
    ∷ (codes "app-manifest" ∷ [])
    ∷ (codes "app-diff" ∷ [])
    ∷ (codes "app-logs" ∷ [])
    ∷ (codes "clusters" ∷ [])
    ∷ []

-- `INVALIDATIONS`
unfoldable pub invalidations : Entries (List QueryKey)
invalidations =
    (codes "Kustomization", app_keys)
    ∷ (codes "HelmRelease", app_keys)
    ∷ (codes "GitRepository", (codes "sources" ∷ []) ∷ [])
    ∷ (codes "HelmRepository", (codes "sources" ∷ []) ∷ [])
    ∷ (codes "OCIRepository", (codes "sources" ∷ []) ∷ [])
    ∷ (codes "Bucket", (codes "sources" ∷ []) ∷ [])
    ∷ (codes "Alert", (codes "alerts" ∷ []) ∷ [])
    ∷ (codes "Provider", (codes "alerts" ∷ []) ∷ [])
    ∷ (codes "Receiver", (codes "alerts" ∷ []) ∷ [])
    ∷ (codes "ImagePolicy", (codes "image-updates" ∷ []) ∷ [])
    ∷ (codes "ImageRepository", (codes "image-updates" ∷ []) ∷ [])
    ∷ (codes "ImageUpdateAutomation", (codes "image-updates" ∷ []) ∷ [])
    ∷ []

-- The names that a plain object inherits: reading one of them gives a value that is no array.
abbrev pub inherited_names : List Text
inherited_names =
    codes "constructor"
    ∷ codes "toString"
    ∷ codes "toLocaleString"
    ∷ codes "valueOf"
    ∷ codes "hasOwnProperty"
    ∷ codes "isPrototypeOf"
    ∷ codes "propertyIsEnumerable"
    ∷ codes "__proto__"
    ∷ codes "__defineGetter__"
    ∷ codes "__defineSetter__"
    ∷ codes "__lookupGetter__"
    ∷ codes "__lookupSetter__"
    ∷ []

abbrev pub debounce_ms : ℕ
debounce_ms = 300

-- A timer of the window: its handle, the time from which it may fire, and what its callback
-- closes over.
pub record Timer : Type 0 where
  pub handle : ℕ
  pub due : ℕ
  pub key : QueryKey

pub record Stream : Type 0 where
  pub clock : ℕ
  pub next_handle : ℕ
  pub timers : List Timer
  pub pending : Entries ℕ
  pub invalidated : List QueryKey
  pub listening : Bool

-- `key.join('|')`
abbrev pub id_of : QueryKey → Text
id_of = join (b'|' ∷ [])

-- `window.clearTimeout`
unfoldable pub clear_timeout : ℕ → List Timer → List Timer
clear_timeout t = keep (λ x. not (x.handle == t))

-- `if (existing) window.clearTimeout(existing)`
unfoldable pub clear_existing : Option ℕ → List Timer → List Timer
unfolding clear_timeout
clear_existing none ts = ts
clear_existing (some t) ts = if t == 0 then ts else clear_timeout t ts

unfoldable pub schedule_invalidate : QueryKey → Stream → Stream
schedule_invalidate key st = record st {
  next_handle = suc st.next_handle;
  timers =
      clear_existing (get (id_of key) st.pending) st.timers
      ++ record { handle = st.next_handle; due = st.clock + debounce_ms; key = key } ∷ [];
  pending = put (id_of key) st.next_handle st.pending;
}

-- The callback of a timer, which the window drops when it fires.
unfoldable pub fire : Timer → Stream → Stream
fire t st = record st {
  timers = clear_timeout t.handle st.timers;
  pending = remove (id_of t.key) st.pending;
  invalidated = st.invalidated ++ t.key ∷ [];
}

unfoldable pub schedule_all : List QueryKey → Stream → Stream
schedule_all [] st = st
schedule_all (k ∷ ks) st = schedule_all ks (schedule_invalidate k st)

-- What `JSON.parse` makes of an event's data: it throws, or gives null, or a value.
pub data Parsed : Type 0 where
  malformed null_value : Parsed
  event : WatchEvent → Parsed

-- How the handler ends: `TypeError` is not caught in it.
pub data Outcome : Type 0 where
  returns type_error : Stream → Outcome

-- `INVALIDATIONS[kind]` and the loop over it
unfoldable pub invalidate_kind : Text → Option (List QueryKey) → Stream → Outcome
invalidate_kind kind (some keys) st = returns (schedule_all keys st)
invalidate_kind kind none st = if has kind inherited_names then type_error st else returns st

unfoldable pub on_invalidate : Parsed → Stream → Outcome
unfolding invalidate_kind
on_invalidate malformed st = returns st
on_invalidate null_value st = type_error st
on_invalidate (event ev) st = invalidate_kind ev.kind (get ev.kind invalidations) st

abbrev pub state_of : Outcome → Stream
state_of (returns st) = st
state_of (type_error st) = st

-- The effect: `opened` is false where the constructor of EventSource throws, and nothing is set up.
abbrev pub mount : ℕ → Bool → Stream
mount now opened = record {
  clock = now;
  next_handle = 1;
  timers = [];
  pending = [];
  invalidated = [];
  listening = opened;
}

unfoldable pub clear_all : List ℕ → List Timer → List Timer
clear_all [] ts = ts
clear_all (t ∷ hs) ts = clear_all hs (clear_timeout t ts)

-- The cleanup of the effect.
unfoldable pub unmount : Stream → Stream
unfolding clear_all
unmount st = record st {
  timers = clear_all (values st.pending) st.timers;
  pending = [];
  listening = false;
}

-- What can happen next: an event arrives, time passes, a timer that is due fires, or the
-- component is unmounted. The window may let a timer wait past its time.
pub data Step (st : Stream) : Stream → Type 0 where
  arrives : (p : Parsed) → st.listening ≡ true → Step st (state_of (on_invalidate p st))
  waits : (d : ℕ) → Step st (record st { clock = st.clock + d })
  fires : (t : Timer) → In t st.timers → t.due ≤ st.clock → Step st (fire t st)
  unmounts : Step st (unmount st)

pub data Reach (st : Stream) : Stream → Type 0 where
  here : Reach st st
  next : {u v : Stream} → Reach st u → Step u v → Reach st v
