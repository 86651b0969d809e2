-- ===== src/Strategy/Tests.antt =====
-- The theorems of the live-trading gate at concrete orders.
use claude_code_and_vive_cod.Prelude.{pos, ◌≡◌, refl, true, none, some, [], ◌∷◌}
use claude_code_and_vive_cod.Values.{int_value}
use claude_code_and_vive_cod.Brokers.Capabilities.{kis_live_capabilities}
use claude_code_and_vive_cod.Risk.Sellable.{BrokerPosition}
use claude_code_and_vive_cod.Risk.HaltPolicy.{risk_breach, degraded_feed, prove_exit}
use claude_code_and_vive_cod.Strategy.Gate.{LiveBroker, live_trade_allowed}
use claude_code_and_vive_cod.Strategy.Gate.Halts.{
  IsSafeExit, live_trade_allowed-IsSafeExit, safe_exit_passes,
}
use claude_code_and_vive_cod.Strategy.Orders.{PlaceCall}

abbrev apple : BrokerPosition
apple = record {
  symbol = "AAPL";
  qty = int_value (pos 10);
  sellable_qty = int_value (pos 8);
  avg_price = int_value (pos 150);
  market = "US";
}

abbrev broker : LiveBroker
broker = record {
  is_live = true;
  capabilities = kis_live_capabilities;
  get_positions = some (apple ∷ []);
  get_price = λ symbol. some (int_value (pos 151));
}

live_trade_allowed-IsSafeExit_example :
    (true ≡ true) × IsSafeExit degraded_feed broker "AAPL" "sell" (int_value (pos 8)) none
unfolding live_trade_allowed claude_code_and_vive_cod.Strategy.Gate.halt_gate
    claude_code_and_vive_cod.Risk.HaltPolicy.is_allowed
    claude_code_and_vive_cod.Strategy.Gate.classify prove_exit
    claude_code_and_vive_cod.Values.number_of claude_code_and_vive_cod.Values.double_of_nat
    claude_code_and_vive_cod.Values.is_positive_finite
    claude_code_and_vive_cod.Risk.HaltPolicy.find_position
    claude_code_and_vive_cod.Risk.Sellable.validate_sell_qty
    claude_code_and_vive_cod.Risk.Sellable.sellable_from_position
    claude_code_and_vive_cod.Risk.Sellable.as_count
    claude_code_and_vive_cod.Strategy.Gate.price_gate claude_code_and_vive_cod.Strategy.Gate.priced
    claude_code_and_vive_cod.Strategy.Gate.resolved_price
    claude_code_and_vive_cod.Risk.HaltPolicy.is_valid_execution_price
live_trade_allowed-IsSafeExit_example =
    live_trade_allowed-IsSafeExit degraded_feed true broker "AAPL" "sell" (int_value (pos 8)) none
      refl refl

safe_exit_passes_example :
    live_trade_allowed
      (record { halt_cause = some risk_breach; live_trading = true })
      broker
      "AAPL"
      "sell"
      (int_value (pos 8))
      none
    ≡ true
unfolding prove_exit claude_code_and_vive_cod.Values.number_of
    claude_code_and_vive_cod.Values.double_of_nat claude_code_and_vive_cod.Values.is_positive_finite
    claude_code_and_vive_cod.Risk.HaltPolicy.find_position
    claude_code_and_vive_cod.Risk.Sellable.validate_sell_qty
    claude_code_and_vive_cod.Risk.Sellable.sellable_from_position
    claude_code_and_vive_cod.Risk.Sellable.as_count
safe_exit_passes_example =
    safe_exit_passes risk_breach broker "AAPL" (int_value (pos 8)) none (λ e. cc) refl (λ e. cc)

abbrev exit_call : PlaceCall
exit_call = record {
  symbol = "AAPL";
  side = "sell";
  qty = pos 8;
  price = some (int_value (pos 151));
  order_type = "limit";
}
