-- ===== src/Execution/FailureBreaker.antt =====
-- backend/execution/circuit_breaker.py. Clock readings are whole seconds.
pub mod Trips
use claude_code_and_vive_cod.Prelude.{
  ℕ, ◌+◌, Bool, true, false, ◌&&◌, Option, none, some, leb, is_none, if◌then◌else◌,
}

-- `ConsecutiveFailureBreaker`; the threshold and the cooldown are arguments.
pub record FailureBreaker : Type 0 where
  pub failures : ℕ
  pub tripped_at : Option ℕ

abbrev pub new_breaker : FailureBreaker
new_breaker = record { failures = 0; tripped_at = none }

unfoldable pub record_failure : ℕ → ℕ → FailureBreaker → FailureBreaker
record_failure threshold now b =
    let n = b.failures + 1 in
    record {
      failures = n;
      tripped_at = if leb threshold n && is_none b.tripped_at then some now else b.tripped_at;
    }

unfoldable pub record_success : FailureBreaker → FailureBreaker
record_success b = new_breaker

unfoldable pub open_since : ℕ → ℕ → Option ℕ → FailureBreaker → Bool × FailureBreaker
open_since cooldown now none b = (false, b)
open_since cooldown now (some t) b =
    if leb (t + cooldown) now then (false, new_breaker) else (true, b)

unfoldable pub is_open : ℕ → ℕ → FailureBreaker → Bool × FailureBreaker
is_open cooldown now b = open_since cooldown now b.tripped_at b
