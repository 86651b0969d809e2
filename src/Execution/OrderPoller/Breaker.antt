-- ===== src/Execution/OrderPoller/Breaker.antt =====
-- The circuit breaker over sequences of lookups.
use claude_code_and_vive_cod.Prelude.{
  ℕ, ◌+◌, ◌≤◌, ◌<◌, ◌≡◌, ◌⊎◌, refl, true, false, List, [], ◌∷◌, arith, leb, ◌∙◌,
}
use claude_code_and_vive_cod.Execution.OrderPoller.Health.{
  Monitor, Clock, new_monitor, record_poll_success, record_poll_error, record_probe_failure,
  breaker_threshold, breaker_cooldown_sec, breaker_max_cooldown_sec,
}

-- Between lookups: the breaker is open exactly after five failures in a row, and its cooldown lies
-- between one and five minutes.
pub record IsSound (m : Monitor) : Type 0 where
  pub open_after :
      (m.circuit_open ≡ true) × (breaker_threshold ≤ m.consecutive_poll_errors)
      ⊎ (m.circuit_open ≡ false) × (m.consecutive_poll_errors < breaker_threshold)
  pub cooldown_low : breaker_cooldown_sec ≤ m.cooldown_sec
  pub cooldown_high : m.cooldown_sec ≤ breaker_max_cooldown_sec

-- A lookup as the loop makes it: an answer, a failure with the breaker closed, or a failed probe.
pub data Lookup : Type 0 where
  answered failed : Clock → Lookup

unfoldable pub look : Lookup → Monitor → Monitor
look (answered c) m = (record_poll_success c m).1
look (failed c) m = elim m.circuit_open [
  | true ↦ record_probe_failure c m
  | false ↦ (record_poll_error c m).1
]

unfoldable pub look_all : List Lookup → Monitor → Monitor
look_all [] m = m
look_all (l ∷ ls) m = look_all ls (look l m)

new-IsSound : IsSound new_monitor
new-IsSound = ground arith

look-IsSound : (l : Lookup) (m : Monitor) → IsSound m → IsSound (look l m)
unfolding look record_poll_success record_poll_error record_probe_failure
look-IsSound (answered c) m s = ground arith
look-IsSound (failed c) m s = ground arith

look_all-IsSound : (ls : List Lookup) (m : Monitor) → IsSound m → IsSound (look_all ls m)
unfolding look_all
look_all-IsSound [] m s = s
look_all-IsSound (l ∷ ls) m s = look_all-IsSound ls (look l m) (look-IsSound l m s)

-- How many lookups have failed since the last answer, from `n` such failures.
abbrev pub streak : ℕ → List Lookup → ℕ
streak n [] = n
streak n (answered c ∷ ls) = streak 0 ls
streak n (failed c ∷ ls) = streak (n + 1) ls

look-counts :
    (l : Lookup) (ls : List Lookup) (m : Monitor)
    → streak (look l m).consecutive_poll_errors ls ≡ streak m.consecutive_poll_errors (l ∷ ls)
unfolding look record_poll_success record_poll_error record_probe_failure
look-counts (answered c) ls m = ground arith
look-counts (failed c) ls m = ground arith

look_all-counts :
    (ls : List Lookup) (m : Monitor)
    → (look_all ls m).consecutive_poll_errors ≡ streak m.consecutive_poll_errors ls
unfolding look_all
look_all-counts [] m = refl
look_all-counts (l ∷ ls) m = look_all-counts ls (look l m) ∙ look-counts l ls m

-- After any sequence of answered and failed lookups from the start, the breaker is open exactly
-- if the last five lookups or more have failed in a row, and its cooldown lies between 60 and 300
-- seconds.
pub look_all-new :
    (ls : List Lookup)
    → let m = look_all ls new_monitor in
      (m.circuit_open ≡ leb breaker_threshold (streak 0 ls))
      × (breaker_cooldown_sec ≤ m.cooldown_sec)
      × (m.cooldown_sec ≤ breaker_max_cooldown_sec)
look_all-new ls =
    let s = look_all-IsSound ls new_monitor new-IsSound in
    (ground (arith, s.open_after, look_all-counts ls new_monitor), s.cooldown_low, s.cooldown_high)
