-- ===== src/Palette/Bells.antt =====
-- web/src/components/Topbar.tsx: the bell of notifications.
use yafu.Base.{ℕ, ◌-◌, Bool, true, false, List, take, keep, length, if◌then◌else◌}
use yafu.ApiTypes.{FluxEvent, EventKind}

-- NotificationsBell
abbrev pub is_issue : FluxEvent → Bool
is_issue e = elim e.kind [ EventKind.warn ↦ true | EventKind.err ↦ true | _ ↦ false ]

unfoldable pub recent : List FluxEvent → List FluxEvent
recent events = take 8 (keep is_issue events)

pub record Bell : Type 0 where
  pub is_open : Bool
  pub seen_count : ℕ

abbrev pub unread : List FluxEvent → Bell → ℕ
unread events b = length (recent events) - b.seen_count

unfoldable pub toggle_bell : List FluxEvent → Bell → Bell
toggle_bell events b =
    if b.is_open
    then record b { is_open = false }
    else record { is_open = true; seen_count = length (recent events) }
