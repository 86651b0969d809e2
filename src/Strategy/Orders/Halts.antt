-- ===== src/Strategy/Orders/Halts.antt =====
-- What reaches the broker during a halt.
use claude_code_and_vive_cod.Prelude.{
  ◌≡◌, refl, Bool, true, false, Option, none, some, String, ℤ, pos, zero, str_eq, arith,
}
use claude_code_and_vive_cod.Values.{PyFloat, PyValue, int_value, float_of_int}
use claude_code_and_vive_cod.Risk.HaltPolicy.{HaltCause}
use claude_code_and_vive_cod.Brokers.Validator.{OrderRequest, Checked}
use claude_code_and_vive_cod.Strategy.Gate.{LiveBroker, GateState, live_trade_allowed}
use claude_code_and_vive_cod.Strategy.Gate.Halts.{IsSafeExit, live_trade_allowed-IsSafeExit}
use claude_code_and_vive_cod.Strategy.Orders.{
  PlaceCall, returned, placed, rejected_order, price_or_quote, place_checked, place_quoted, buy,
  sell,
}

buy_not_sell : str_eq "buy" "sell" ≡ false
buy_not_sell = refl

not_true : (b : Bool) → (b ≡ true → ⊥) → b ≡ false
not_true true h = absurd (h refl)
not_true false h = refl

-- On a live broker no buy gets past any halt: it is returned as a rejected order of quantity
-- zero, and neither a quote nor an order is asked of the broker.
pub buy_halted :
    (enforcement : Bool) (cause : HaltCause) (live_trading : Bool) (broker : LiveBroker)
    (symbol : String) (qty : ℤ) (price : Option PyValue) (order_type : String)
    → broker.is_live ≡ true
    → buy enforcement
        (record { halt_cause = some cause; live_trading = live_trading })
        broker
        symbol
        qty
        price
        order_type
      ≡ returned (rejected_order symbol "buy" (pos zero) (int_value (pos zero)))
unfolding buy
buy_halted enforcement cause live_trading broker symbol qty price order_type live =
    let state : GateState = record { halt_cause = some cause; live_trading = live_trading } in
    let blocked : live_trade_allowed state broker symbol "buy" (int_value qty) price ≡ false =
      not_true _ (λ passed.
        let safe : IsSafeExit cause broker symbol "buy" (int_value qty) price =
          (live_trade_allowed-IsSafeExit cause live_trading broker symbol "buy" (int_value qty)
            price live passed).1 in
        cc (safe.sells, buy_not_sell)) in
    rw blocked

checked-placed :
    (symbol side : String) (qty : ℤ) (price : PyValue) (c : Checked (OrderRequest PyValue))
    (call : PlaceCall)
    → place_checked symbol side qty price c ≡ placed call
    → (call.symbol ≡ symbol) × (call.side ≡ side) × (call.qty ≡ qty)
unfolding place_checked
checked-placed symbol side qty price c call h = ground arith

quoted-placed :
    (enforcement : Bool) (broker : LiveBroker) (symbol side : String) (qty : ℤ)
    (quoted : Option (PyValue × String)) (number : Option PyFloat) (call : PlaceCall)
    → place_quoted enforcement broker symbol side qty quoted number ≡ placed call
    → (call.symbol ≡ symbol) × (call.side ≡ side) × (call.qty ≡ qty)
unfolding place_quoted
quoted-placed e broker symbol side qty none number call h = cc
quoted-placed e broker symbol side qty (some q) none call h = cc
quoted-placed e broker symbol side qty (some (price, t)) (some x) call h =
    checked-placed symbol side qty price _ call h

-- During a halt a sell reaches a live broker only as a safe exit, with live trading enabled, for
-- the symbol and the quantity that were asked for.
pub sell_halted :
    (enforcement : Bool) (cause : HaltCause) (live_trading : Bool) (broker : LiveBroker)
    (symbol : String) (qty : ℤ) (price : Option PyValue) (order_type : String) (call : PlaceCall)
    → broker.is_live ≡ true
    → sell enforcement
        (record { halt_cause = some cause; live_trading = live_trading })
        broker
        symbol
        qty
        price
        order_type
      ≡ placed call
    → (live_trading ≡ true)
      × IsSafeExit cause broker symbol "sell" (int_value qty) price
      × ((call.symbol ≡ symbol) × (call.side ≡ "sell") × (call.qty ≡ qty))
unfolding sell
sell_halted enforcement cause live_trading broker symbol qty price order_type call live h =
    let state : GateState = record { halt_cause = some cause; live_trading = live_trading } in
    let passed : live_trade_allowed state broker symbol "sell" (int_value qty) price ≡ true =
      ground arith in
    let safe : (live_trading ≡ true) × IsSafeExit cause broker symbol "sell" (int_value qty) price =
      live_trade_allowed-IsSafeExit cause live_trading broker symbol "sell" (int_value qty) price
        live passed in
    (
      safe.0,
      safe.1,
      quoted-placed enforcement broker symbol "sell" qty
          (price_or_quote broker symbol price order_type) (float_of_int qty) call (ground arith),
    )
