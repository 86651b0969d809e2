-- ===== src/Strategy/Orders.antt =====
-- `StrategyBase.buy` and `StrategyBase.sell` of backend/strategy/base.py.
pub mod Halts
use claude_code_and_vive_cod.Prelude.{
  Bool, false, Option, none, some, String, ℤ, pos, zero, if◌then◌else◌,
}
use claude_code_and_vive_cod.Values.{
  PyFloat, PyValue, none_value, bool_value, int_value, float_value, finite, float_of_int,
}
use claude_code_and_vive_cod.Brokers.Models.{Order, rejected}
use claude_code_and_vive_cod.Brokers.Validator.{
  OrderRequest, Checked, ok, unsupported, unreadable_qty, validate,
}
use claude_code_and_vive_cod.Strategy.Gate.{LiveBroker, GateState, live_trade_allowed}

-- The arguments of the call of `broker.place_order`.
pub record PlaceCall : Type 0 where
  pub symbol : String
  pub side : String
  pub qty : ℤ
  pub price : Option PyValue
  pub order_type : String

-- What the method does last: return a rejected order, call the broker, or raise.
pub data Outcome : Type 0 where
  returned : Order PyValue → Outcome
  placed : PlaceCall → Outcome
  raised : Outcome

abbrev pub zero_price : PyValue
zero_price = float_value (finite false zero false)

-- `price or 0.0`
abbrev or_zero : Option PyValue → PyValue
or_zero none = zero_price
or_zero (some none_value) = zero_price
or_zero (some (bool_value false)) = zero_price
or_zero (some (int_value (pos zero))) = zero_price
or_zero (some (float_value (finite sign zero false))) = zero_price
or_zero (some v) = v

abbrev pub rejected_order : String → String → ℤ → PyValue → Order PyValue
rejected_order symbol side qty price = record {
  id = "";
  symbol = symbol;
  side = side;
  qty = qty;
  price = price;
  status = rejected;
  filled_qty = pos zero;
  avg_fill_price = zero_price;
  cumulative_filled_qty = none;
}

-- The price and order type after `if price is None`; `none` if the quote raises.
unfoldable pub price_or_quote :
    LiveBroker → String → Option PyValue → String → Option (PyValue × String)
price_or_quote broker symbol (some price) order_type = some (price, order_type)
price_or_quote broker symbol none order_type = elim (broker.get_price symbol) [
  | none ↦ none
  | some price ↦ some (price, "market")
]

-- The end of the `try` block and its handler: `ValueError` and `OverflowError` escape.
unfoldable pub place_checked :
    String → String → ℤ → PyValue → Checked (OrderRequest PyValue) → Outcome
place_checked symbol side qty price (ok req) = placed (record {
  symbol = symbol;
  side = side;
  qty = qty;
  price = req.price;
  order_type = req.order_type;
})
place_checked symbol side qty price (unsupported unreadable_qty) = raised
place_checked symbol side qty price (unsupported violation) =
    returned (rejected_order symbol side qty (or_zero (some price)))

module _ (enforcement : Bool) (broker : LiveBroker) (symbol side : String) (qty : ℤ) where
  unfoldable pub place_quoted : Option (PyValue × String) → Option PyFloat → Outcome
  place_quoted none number = raised
  place_quoted (some quoted) none = raised
  place_quoted (some (price, order_type)) (some number) = place_checked symbol side qty price (
      validate enforcement broker.capabilities (record {
        symbol = symbol;
        side = side;
        qty = number;
        price = some price;
        order_type = order_type;
        market = none;
      }))

-- The body that `buy` and `sell` share, but for the side.
module _ (enforcement : Bool) (state : GateState) (broker : LiveBroker) where
  unfoldable pub place_side : String → String → ℤ → Option PyValue → String → Outcome
  place_side side symbol qty price order_type =
      if live_trade_allowed state broker symbol side (int_value qty) price
      then place_quoted enforcement broker symbol side qty
          (price_or_quote broker symbol price order_type) (float_of_int qty)
      else returned (rejected_order symbol side (pos zero) (int_value (pos zero)))

  unfoldable pub buy : String → ℤ → Option PyValue → String → Outcome
  unfolding place_side
  buy = place_side "buy"

  unfoldable pub sell : String → ℤ → Option PyValue → String → Outcome
  unfolding place_side
  sell = place_side "sell"
