-- ===== src/Strategy/Gate.antt =====
-- `_live_trade_allowed` of backend/strategy/base.py.
pub mod Halts
use claude_code_and_vive_cod.Prelude.{
  Bool, true, false, Option, none, some, List, String, str_eq, if◌then◌else◌,
}
use claude_code_and_vive_cod.Values.{PyValue}
use claude_code_and_vive_cod.Risk.Sellable.{BrokerPosition, Verdict, pass, refuse}
use claude_code_and_vive_cod.Risk.HaltPolicy.{
  HaltCause, degraded_feed, ExitRefusal, OperationClass, entry, exit, is_allowed,
  is_valid_execution_price, prove_exit,
}
use claude_code_and_vive_cod.Brokers.Models.{BrokerCapabilities}

-- What the gate reads of the broker: `none` is an exception. A broker with no `get_positions` has
-- the empty list.
pub record LiveBroker : Type 0 where
  pub is_live : Bool
  pub capabilities : BrokerCapabilities
  pub get_positions : Option (List BrokerPosition)
  pub get_price : String → Option PyValue

-- The process's state: `SAFE_MODE.halt_cause` (`none` also outside the worker), and whether
-- `ENABLE_LIVE_TRADING` is true.
pub record GateState : Type 0 where
  pub halt_cause : Option HaltCause
  pub live_trading : Bool

abbrev class_of : Verdict ExitRefusal → OperationClass
class_of pass = exit
class_of (refuse _) = entry

-- Only a proven risk-reducing sell is an exit.
unfoldable pub classify : LiveBroker → String → String → PyValue → OperationClass
classify broker symbol side qty =
    if str_eq side "sell" then class_of (prove_exit broker.get_positions symbol qty) else entry

-- The price that an exit under a degraded feed would go out at: the given one, or a live quote.
unfoldable pub resolved_price : LiveBroker → String → Option PyValue → Option PyValue
resolved_price broker symbol (some price) = some price
resolved_price broker symbol none = broker.get_price symbol

unfoldable pub priced : Option PyValue → Bool
priced none = false
priced (some p) = is_valid_execution_price p

-- The price rule under a degraded feed, for a class that the halt lets through.
unfoldable pub price_gate : HaltCause → OperationClass → Option PyValue → Bool
price_gate degraded_feed exit resolved = priced resolved
price_gate _ _ resolved = true

unfoldable pub halt_gate :
    Option HaltCause → LiveBroker → String → String → PyValue → Option PyValue → Bool
halt_gate none broker symbol side qty price = true
halt_gate (some cause) broker symbol side qty price =
    let op = classify broker symbol side qty in
    if is_allowed (some cause) op
    then price_gate cause op (resolved_price broker symbol price)
    else false

-- `true` where the code returns `(True, None)`, and `false` where it returns a rejected order.
unfoldable pub live_trade_allowed :
    GateState → LiveBroker → String → String → PyValue → Option PyValue → Bool
live_trade_allowed state broker symbol side qty price =
    if broker.is_live
    then (if halt_gate state.halt_cause broker symbol side qty price
        then state.live_trading
        else false)
    else true
