-- ===== src/Brokers/Validator.antt =====
-- backend/brokers/validator.py. `enforcement` is the environment's `KIS_MARKET_ENFORCEMENT`; the
-- quantity is a double, and the price is any type `P`, since it is only passed on.
pub mod Soundness
use claude_code_and_vive_cod.Prelude.{
  Bool, true, false, not, ◌&&◌, ◌||◌, Option, none, some, String, str_eq, if◌then◌else◌,
}
use claude_code_and_vive_cod.Values.{PyFloat, nan, infinite, finite}
use claude_code_and_vive_cod.Brokers.Models.{BrokerCapabilities}

pub record OrderRequest (P : Type 0) : Type 0 where
  pub symbol : String
  pub side : String
  pub qty : PyFloat
  pub price : Option P
  pub order_type : String
  pub market : Option String

-- The capability that `UnsupportedCapabilityError` names; `unreadable_qty` is the `ValueError` or
-- `OverflowError` of `int(qty)`.
pub data Violation : Type 0 where
  market_routing supports_fractional supports_stop_order supports_market_buy supports_market_sell
        supports_account_balance supports_portfolio unreadable_qty :
      Violation

pub data Checked (A : Type 0) : Type 0 where
  ok : A → Checked A
  unsupported : Violation → Checked A

infixl 5 ◌>>◌
abbrev ◌>>◌ : {A : Type 0} → Checked (Unit {0}) → Checked A → Checked A
ok _ >> k = k
unsupported v >> k = unsupported v

abbrev raise_if : Bool → Violation → Checked (Unit {0})
raise_if true v = unsupported v
raise_if false v = ok tt

module _ (enforcement : Bool) (caps : BrokerCapabilities) where
  -- Whether `req.market` is another one than the market that the broker is bound to.
  unfoldable pub misrouted : Option String → Bool
  misrouted none = false
  misrouted (some market) =
      (str_eq caps.market "US" || str_eq caps.market "KR") && not (str_eq market caps.market)

  unfoldable pub check_market_routing : Option String → Checked Unit
  check_market_routing market = raise_if (misrouted market && enforcement) market_routing

module _ (caps : BrokerCapabilities) where
  unfoldable pub check_fractional : PyFloat → Checked Unit
  check_fractional nan = raise_if (not caps.supports_fractional) unreadable_qty
  check_fractional (infinite _) = raise_if (not caps.supports_fractional) unreadable_qty
  check_fractional (finite _ _ fraction) =
      raise_if (not caps.supports_fractional && fraction) supports_fractional

  -- The body is `pass` on every branch.
  unfoldable pub check_short : String → Checked Unit
  check_short side = ok tt

  unfoldable pub check_stop : String → Checked Unit
  check_stop order_type =
      raise_if (str_eq order_type "stop" && not caps.supports_stop_order) supports_stop_order

  -- Which flag a market order on this side needs.
  unfoldable pub market_flag : String → Bool
  market_flag side =
      if str_eq side "buy" then caps.supports_market_buy else caps.supports_market_sell

  module _ {P : Type 0} where
    degrade_to_limit : OrderRequest P → Option P → Checked (OrderRequest P)
    degrade_to_limit req (some price) = ok (record req { order_type = "limit" })
    degrade_to_limit req none =
        unsupported (if str_eq req.side "buy" then supports_market_buy else supports_market_sell)

    unfoldable pub normalize_market_order : OrderRequest P → Checked (OrderRequest P)
    unfolding degrade_to_limit
    normalize_market_order req =
        if str_eq req.order_type "market"
        then if market_flag req.side then ok req else degrade_to_limit req req.price
        else ok req

module _ (enforcement : Bool) (caps : BrokerCapabilities) {P : Type 0} where
  unfoldable pub validate : OrderRequest P → Checked (OrderRequest P)
  validate req =
      check_market_routing enforcement caps req.market
      >> (check_fractional caps req.qty
          >> (check_short caps req.side
              >> (check_stop caps req.order_type >> normalize_market_order caps req)))

unfoldable pub validate_balance_query : BrokerCapabilities → Checked Unit
validate_balance_query caps = raise_if (not caps.supports_account_balance) supports_account_balance

unfoldable pub validate_portfolio_query : BrokerCapabilities → Checked Unit
validate_portfolio_query caps = raise_if (not caps.supports_portfolio) supports_portfolio
