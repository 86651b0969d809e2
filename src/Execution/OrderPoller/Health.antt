-- ===== src/Execution/OrderPoller/Health.antt =====
-- `PollingHealth` and `PollingHealthMonitor`: the counters and the circuit breaker.
use claude_code_and_vive_cod.Prelude.{
  ℕ, ◌+◌, ◌-◌, ◌*◌, Bool, true, false, not, ◌&&◌, ◌||◌, Option, none, some, ltb, leb, if◌then◌else◌,
}

abbrev pub breaker_threshold : ℕ
breaker_threshold = 5

abbrev pub breaker_cooldown_sec : ℕ
breaker_cooldown_sec = 60

abbrev pub breaker_max_cooldown_sec : ℕ
breaker_max_cooldown_sec = 300

pub record PollingHealth : Type 0 where
  pub total_registered : ℕ
  pub total_fills_detected : ℕ
  pub total_partial_fills : ℕ
  pub total_timeouts : ℕ
  pub total_cancels : ℕ
  pub total_rejects : ℕ
  pub total_expired : ℕ
  pub total_poll_errors : ℕ
  pub consecutive_poll_errors : ℕ
  pub last_successful_poll_at : Option ℕ
  pub pending_count : ℕ
  pub circuit_open : Bool
  pub circuit_opened_at : Option ℕ

unfoldable pub is_healthy : PollingHealth → Bool
is_healthy h = not h.circuit_open && ltb h.consecutive_poll_errors breaker_threshold

-- Readings of the two clocks.
pub record Clock : Type 0 where
  pub monotonic : ℕ
  pub wall : ℕ

pub record Monitor : Type 0 where
  pub health : PollingHealth
  pub open health use *
  pub cooldown_sec : ℕ
  pub next_probe_at : ℕ
  pub opened_mono : ℕ

abbrev pub new_monitor : Monitor
new_monitor = record {
  health = record {
    total_registered = 0;
    total_fills_detected = 0;
    total_partial_fills = 0;
    total_timeouts = 0;
    total_cancels = 0;
    total_rejects = 0;
    total_expired = 0;
    total_poll_errors = 0;
    consecutive_poll_errors = 0;
    last_successful_poll_at = none;
    pending_count = 0;
    circuit_open = false;
    circuit_opened_at = none;
  };
  cooldown_sec = breaker_cooldown_sec;
  next_probe_at = 0;
  opened_mono = 0;
}

abbrev pub with_health : Monitor → PollingHealth → Monitor
with_health m h = record m { health = h }

unfoldable pub record_register : Monitor → Monitor
record_register m = with_health m (record m.health { total_registered = m.total_registered + 1 })

unfoldable pub record_fill : Monitor → Monitor
record_fill m =
    with_health m (record m.health { total_fills_detected = m.total_fills_detected + 1 })

unfoldable pub record_partial_fill : Monitor → Monitor
record_partial_fill m =
    with_health m (record m.health { total_partial_fills = m.total_partial_fills + 1 })

unfoldable pub record_timeout : Monitor → Monitor
record_timeout m = with_health m (record m.health { total_timeouts = m.total_timeouts + 1 })

unfoldable pub record_cancel : Monitor → Monitor
record_cancel m = with_health m (record m.health { total_cancels = m.total_cancels + 1 })

unfoldable pub record_reject : Monitor → Monitor
record_reject m = with_health m (record m.health { total_rejects = m.total_rejects + 1 })

unfoldable pub record_expired : Monitor → Monitor
record_expired m = with_health m (record m.health { total_expired = m.total_expired + 1 })

unfoldable pub set_pending_count : ℕ → Monitor → Monitor
set_pending_count n m = with_health m (record m.health { pending_count = n })

-- The result is how long the breaker was open, if this closed it.
unfoldable pub record_poll_success : Clock → Monitor → Option ℕ × Monitor
record_poll_success c m =
    let answered = record m.health {
      consecutive_poll_errors = 0;
      last_successful_poll_at = some c.wall;
    } in
    if m.circuit_open
    then (
      some (c.monotonic - m.opened_mono),
      with_health m (record answered { circuit_open = false; circuit_opened_at = none }),
    )
    else (none, with_health m answered)

-- The result is the failures in a row and the cooldown, if this opened the breaker.
unfoldable pub record_poll_error : Clock → Monitor → Option (ℕ × ℕ) × Monitor
record_poll_error c m =
    let n = m.consecutive_poll_errors + 1 in
    let failed = record m.health {
      total_poll_errors = m.total_poll_errors + 1;
      consecutive_poll_errors = n;
    } in
    if m.circuit_open || ltb n breaker_threshold then (none, with_health m failed) else (
      some (n, breaker_cooldown_sec),
      record {
        health = record failed { circuit_open = true; circuit_opened_at = some c.wall };
        cooldown_sec = breaker_cooldown_sec;
        next_probe_at = c.monotonic + breaker_cooldown_sec;
        opened_mono = c.monotonic;
      },
    )

abbrev min : ℕ → ℕ → ℕ
min a b = if ltb b a then b else a

unfoldable pub record_probe_failure : Clock → Monitor → Monitor
record_probe_failure c m =
    let cooldown = min (m.cooldown_sec * 2) breaker_max_cooldown_sec in
    record m {
      health = record m.health {
        total_poll_errors = m.total_poll_errors + 1;
        consecutive_poll_errors = m.consecutive_poll_errors + 1;
      };
      cooldown_sec = cooldown;
      next_probe_at = c.monotonic + cooldown;
    }

pub data CircuitState : Type 0 where
  closed open_circuit probe : CircuitState

unfoldable pub circuit_state : ℕ → Monitor → CircuitState
circuit_state now m =
    if m.circuit_open then if leb m.next_probe_at now then probe else open_circuit else closed

unfoldable pub is_circuit_open : Monitor → Bool
is_circuit_open m = m.circuit_open
