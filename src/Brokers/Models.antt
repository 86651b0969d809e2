-- ===== src/Brokers/Models.antt =====
-- backend/brokers/models.py. `P` is the type of prices. `Order.raw`, which nothing modelled reads,
-- is left out.
use claude_code_and_vive_cod.Prelude.{ℕ, Bool, Option, String, ℤ, ◌==◌}
use claude_code_and_vive_cod.Dict.{Dict}

pub data OrderStatus : Type 0 where
  pending submitted partial_filled filled canceled rejected expired unknown : OrderStatus

abbrev pub status_rank : OrderStatus → ℕ
status_rank pending = 0
status_rank submitted = 1
status_rank partial_filled = 2
status_rank filled = 3
status_rank canceled = 4
status_rank rejected = 5
status_rank expired = 6
status_rank unknown = 7

-- `==` of two statuses.
abbrev pub status_eq : OrderStatus → OrderStatus → Bool
status_eq a b = status_rank a == status_rank b

pub record Order (P : Type 0) : Type 0 where
  pub id : String
  pub symbol : String
  pub side : String
  pub qty : ℤ
  pub price : P
  pub status : OrderStatus
  pub filled_qty : ℤ
  pub avg_fill_price : P
  pub cumulative_filled_qty : Option ℤ

pub record Position (P : Type 0) : Type 0 where
  pub symbol : String
  pub qty : ℤ
  pub avg_price : P
  pub market : String
  pub current_price : P
  pub sellable_qty : Option ℤ

-- A time of day is its hour and minute, and a tax rate is in millionths.
pub record BrokerCapabilities : Type 0 where
  pub broker_id : String
  pub market : String
  pub currency : String
  pub supports_market_buy : Bool
  pub supports_market_sell : Bool
  pub supports_limit_order : Bool
  pub supports_stop_order : Bool
  pub supports_fractional : Bool
  pub supports_short : Bool
  pub supports_after_hours : Bool
  pub supports_websocket : Bool
  pub supports_realtime_quote : Bool
  pub supports_account_balance : Bool
  pub supports_portfolio : Bool
  pub fill_mechanism : String
  pub price_type : String
  pub requires_exchange_code : Bool
  pub requires_hashkey : Bool
  pub cancel_requires_symbol : Bool
  pub cancel_requires_qty_price : Bool
  pub retry_safe_on_submit : Bool
  pub rate_limit_per_sec : ℕ
  pub settlement_days : ℕ
  pub has_securities_tax : Bool
  pub securities_tax_rate : ℕ
  pub price_precision : Dict ℕ
  pub min_order_qty : ℕ
  pub session_open_kst : Option (ℕ × ℕ)
  pub session_close_kst : Option (ℕ × ℕ)
