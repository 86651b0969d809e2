-- ===== src/Brokers/Tests.antt =====
-- The validator's theorems at concrete requests.
use claude_code_and_vive_cod.Prelude.{ℕ, refl, true, false, some}
use claude_code_and_vive_cod.Values.{finite}
use claude_code_and_vive_cod.Brokers.Capabilities.{kis_live_capabilities}
use claude_code_and_vive_cod.Brokers.Validator.{OrderRequest, validate}
use claude_code_and_vive_cod.Brokers.Validator.Soundness.{IsAccepted, validate-IsAccepted}

abbrev market_buy : OrderRequest ℕ
market_buy = record {
  symbol = "AAPL";
  side = "buy";
  qty = finite false 3 false;
  price = some 150;
  order_type = "market";
  market = some "US";
}

abbrev limit_buy : OrderRequest ℕ
limit_buy = record market_buy { order_type = "limit" }

validate-IsAccepted_example : IsAccepted true kis_live_capabilities market_buy limit_buy
unfolding validate claude_code_and_vive_cod.Brokers.Validator.check_market_routing
    claude_code_and_vive_cod.Brokers.Validator.misrouted
    claude_code_and_vive_cod.Brokers.Validator.check_fractional
    claude_code_and_vive_cod.Brokers.Validator.check_short
    claude_code_and_vive_cod.Brokers.Validator.check_stop
    claude_code_and_vive_cod.Brokers.Validator.normalize_market_order
    claude_code_and_vive_cod.Brokers.Validator.market_flag
validate-IsAccepted_example =
    validate-IsAccepted true kis_live_capabilities market_buy limit_buy refl
