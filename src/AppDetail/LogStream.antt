-- ===== src/AppDetail/LogStream.antt =====
-- web/src/pages/AppDetail.tsx, useLogStream: the rolling buffer against the whole history.
use yafu.Base.{
  ℕ, zero, suc, ◌+◌, ◌-◌, ◌≤◌, ◌≡◌, refl, sym, ap, ◌∙◌, Bool-cases, or_else, List, [], ◌∷◌, ◌++◌,
  Text, codes, truthy, drop, length, length-append, length-drop, if◌then◌else◌, arith, inl, inr,
}
use yafu.AppDetail.{
  LogState, no_log, last_of, buffer_limit, append_line, LogEvent, on_log_event, run_log, subscribed,
  closed, cleared, line, opened, errored,
}

-- What an event adds to the lines received since the log was last cleared.
abbrev pub receive : LogEvent → List Text → List Text
receive cleared ls = []
receive (line t) ls = ls ++ t ∷ []
receive (opened sent) ls =
    if truthy (or_else sent []) then ls ++ (codes "# " ++ or_else sent []) ∷ [] else ls
receive _ ls = ls

-- The lines received since the log was last cleared, however many.
abbrev pub received : List Text → List LogEvent → List Text
received ls [] = ls
received ls (e ∷ es) = received (receive e ls) es

drop-append : (n : ℕ) (xs ys : List Text) → n ≤ length xs → drop n (xs ++ ys) ≡ drop n xs ++ ys
drop-append zero xs ys h = refl
drop-append (suc n) [] ys h = absurd (omega arith)
drop-append (suc n) (x ∷ xs) ys h = drop-append n xs ys (omega arith)

drop_nil : (n : ℕ) → drop {A = Text} n [] ≡ []
drop_nil zero = refl
drop_nil (suc n) = refl

drop-drop : (m n : ℕ) (xs : List Text) → drop m (drop n xs) ≡ drop (n + m) xs
drop-drop m zero xs = ap (λ k. drop k xs) (omega arith)
drop-drop m (suc n) [] = drop_nil m ∙ sym (drop_nil (suc n + m))
drop-drop m (suc n) (x ∷ xs) = drop-drop m n xs ∙ ap (λ k. drop k (x ∷ xs)) next
  where
    next : suc (n + m) ≡ suc n + m
    next = omega arith

-- Appending to the end of a history and to its tail gives the same tail.
last_of-append :
    (n : ℕ) (ls : List Text) (t : Text)
    → last_of n (last_of n ls ++ t ∷ []) ≡ last_of n (ls ++ t ∷ [])
unfolding last_of
last_of-append n ls t =
    ap (λ xs. drop (length xs - n) xs) joined
    ∙ drop-drop (length (drop (length ls - n) (ls ++ t ∷ [])) - n) (length ls - n) (ls ++ t ∷ [])
    ∙ ap (λ k. drop k (ls ++ t ∷ [])) same
  where
    joined : drop (length ls - n) ls ++ t ∷ [] ≡ drop (length ls - n) (ls ++ t ∷ [])
    joined = sym (drop-append (length ls - n) ls (t ∷ []) (omega arith))

    same :
        length ls - n + (length (drop (length ls - n) (ls ++ t ∷ [])) - n)
        ≡ length (ls ++ t ∷ []) - n
    same = omega (arith, length-drop (length ls - n) (ls ++ t ∷ []), length-append ls (t ∷ []))

append_line-last_of :
    (t : Text) (ls : List Text) (st : LogState)
    → st.lines ≡ last_of buffer_limit ls
    → (append_line t st).lines ≡ last_of buffer_limit (ls ++ t ∷ [])
unfolding append_line
append_line-last_of t ls st h =
    ap (λ xs. last_of buffer_limit (xs ++ t ∷ [])) h ∙ last_of-append buffer_limit ls t

empty_tail : [] ≡ last_of buffer_limit []
unfolding last_of
empty_tail = sym (drop_nil (length {A = Text} [] - buffer_limit))

on_log_event-receive :
    (e : LogEvent) (ls : List Text) (st : LogState)
    → st.lines ≡ last_of buffer_limit ls
    → (on_log_event e st).lines ≡ last_of buffer_limit (receive e ls)
unfolding on_log_event
on_log_event-receive subscribed ls st h = h
on_log_event-receive closed ls st h = h
on_log_event-receive cleared ls st h = empty_tail
on_log_event-receive (line t) ls st h = append_line-last_of t ls st h
on_log_event-receive (opened sent) ls st h = elim (Bool-cases (truthy (or_else sent []))) [
  | inl e ↦ rw e (append_line-last_of (codes "# " ++ or_else sent []) ls st h)
  | inr e ↦ rw e h
]
on_log_event-receive (errored sent) ls st h = h

run_log-from :
    (es : List LogEvent) (ls : List Text) (st : LogState)
    → st.lines ≡ last_of buffer_limit ls
    → (run_log st es).lines ≡ last_of buffer_limit (received ls es)
unfolding run_log
run_log-from [] ls st h = h
run_log-from (e ∷ es) ls st h =
    run_log-from es (receive e ls) (on_log_event e st) (on_log_event-receive e ls st h)

-- After any sequence of events the buffer holds the last 1000 of the lines received since the log
-- was last cleared, in their order, and so never more than 1000.
pub run_log_lines :
    (es : List LogEvent)
    → ((run_log no_log es).lines ≡ last_of buffer_limit (received [] es))
      × (length (run_log no_log es).lines ≤ buffer_limit)
unfolding last_of
run_log_lines es = let same = run_log-from es [] no_log empty_tail in (same, rw same short)
  where
    short : length (drop (length (received [] es) - buffer_limit) (received [] es)) ≤ buffer_limit
    short = omega (arith, length-drop (length (received [] es) - buffer_limit) (received [] es))
