-- ===== src/Risk/HaltPolicy.antt =====
-- backend/risk/halt_policy.py. A live position lookup is `none` if it raises; Python's `None` and
-- the empty list are both the empty list, as `positions or []` makes them.
use claude_code_and_vive_cod.Prelude.{
  Bool, true, false, Option, none, some, List, [], ◌∷◌, String, str_eq, pos, zero, if◌then◌else◌,
}
use claude_code_and_vive_cod.Values.{PyFloat, PyValue, int_value, number_of, is_positive_finite}
use claude_code_and_vive_cod.Risk.Sellable.{
  BrokerPosition, Refusal, Verdict, pass, refuse, sellable_from_position, validate_sell_qty,
}
pub mod Exits

pub data HaltCause : Type 0 where
  untrusted_state risk_breach degraded_feed record_failure : HaltCause

pub data OperationClass : Type 0 where
  entry exit emergency non_exposure : OperationClass

-- `cause in (RISK_BREACH, DEGRADED_FEED, RECORD_FAILURE)`
exit_survives : HaltCause → Bool
exit_survives untrusted_state = false
exit_survives risk_breach = true
exit_survives degraded_feed = true
exit_survives record_failure = true

unfoldable pub is_allowed : Option HaltCause → OperationClass → Bool
unfolding exit_survives
is_allowed cause emergency = true
is_allowed cause non_exposure = true
is_allowed none entry = true
is_allowed none exit = true
is_allowed (some c) entry = false
is_allowed (some c) exit = exit_survives c

unfoldable pub is_valid_execution_price : PyValue → Bool
is_valid_execution_price raw = elim (number_of raw) [ none ↦ false | some x ↦ is_positive_finite x ]

-- `prove_exit` refuses a type or an overflow as `not_a_number`, and zero, negative, NaN or infinite
-- as `not_positive`.
pub data ExitRefusal : Type 0 where
  not_a_number not_positive lookup_failed no_position : ExitRefusal
  not_sellable : Refusal → ExitRefusal

unfoldable pub find_position : String → List BrokerPosition → Option BrokerPosition
find_position symbol [] = none
find_position symbol (p ∷ ps) = if str_eq p.symbol symbol then some p else find_position symbol ps

unfoldable pub prove_held : PyValue → Option BrokerPosition → Verdict ExitRefusal
prove_held qty none = refuse no_position
prove_held qty (some p) =
    elim (validate_sell_qty qty (sellable_from_position p (int_value (pos zero)) false)) [
      | pass ↦ pass
      | refuse r ↦ refuse (not_sellable r)
    ]

prove_lookup : Option (List BrokerPosition) → String → PyValue → Verdict ExitRefusal
unfolding prove_held
prove_lookup none symbol qty = refuse lookup_failed
prove_lookup (some positions) symbol qty = prove_held qty (find_position symbol positions)

prove_number :
    Option (List BrokerPosition) → String → PyValue → Option PyFloat → Verdict ExitRefusal
unfolding prove_lookup
prove_number get_positions symbol qty none = refuse not_a_number
prove_number get_positions symbol qty (some x) =
    if is_positive_finite x then prove_lookup get_positions symbol qty else refuse not_positive

unfoldable pub prove_exit : Option (List BrokerPosition) → String → PyValue → Verdict ExitRefusal
unfolding prove_number
prove_exit get_positions symbol qty = prove_number get_positions symbol qty (number_of qty)
