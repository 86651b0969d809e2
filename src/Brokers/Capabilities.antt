-- ===== src/Brokers/Capabilities.antt =====
-- backend/brokers/capabilities.py: what each broker declares that it can do.
use claude_code_and_vive_cod.Prelude.{true, false, none, some, [], ◌∷◌}
use claude_code_and_vive_cod.Brokers.Models.{BrokerCapabilities}

abbrev pub kis_live_capabilities : BrokerCapabilities
kis_live_capabilities = record {
  broker_id = "kis";
  market = "US";
  currency = "USD";
  supports_market_buy = false;
  supports_market_sell = false;
  supports_limit_order = true;
  supports_stop_order = false;
  supports_fractional = false;
  supports_short = false;
  supports_after_hours = false;
  supports_websocket = false;
  supports_realtime_quote = false;
  supports_account_balance = true;
  supports_portfolio = true;
  fill_mechanism = "polling";
  price_type = "decimal";
  requires_exchange_code = true;
  requires_hashkey = true;
  cancel_requires_symbol = true;
  cancel_requires_qty_price = true;
  retry_safe_on_submit = false;
  rate_limit_per_sec = 15;
  settlement_days = 2;
  has_securities_tax = false;
  securities_tax_rate = 0;
  price_precision = ("US", 2) ∷ [];
  min_order_qty = 1;
  session_open_kst = some (22, 30);
  session_close_kst = some (5, 0);
}

-- `dataclasses.replace`
abbrev pub kis_paper_capabilities : BrokerCapabilities
kis_paper_capabilities = record kis_live_capabilities { rate_limit_per_sec = 5 }

abbrev pub kiwoom_capabilities : BrokerCapabilities
kiwoom_capabilities = record {
  broker_id = "kiwoom";
  market = "KR";
  currency = "KRW";
  supports_market_buy = true;
  supports_market_sell = true;
  supports_limit_order = true;
  supports_stop_order = false;
  supports_fractional = false;
  supports_short = false;
  supports_after_hours = false;
  supports_websocket = true;
  supports_realtime_quote = false;
  supports_account_balance = false;
  supports_portfolio = false;
  fill_mechanism = "websocket";
  price_type = "integer";
  requires_exchange_code = false;
  requires_hashkey = false;
  cancel_requires_symbol = false;
  cancel_requires_qty_price = false;
  retry_safe_on_submit = false;
  rate_limit_per_sec = 5;
  settlement_days = 2;
  has_securities_tax = true;
  securities_tax_rate = 2000;
  price_precision = ("KR", 0) ∷ [];
  min_order_qty = 1;
  session_open_kst = some (9, 5);
  session_close_kst = some (15, 25);
}

abbrev pub simulator_capabilities : BrokerCapabilities
simulator_capabilities = record {
  broker_id = "simulator";
  market = "simulation";
  currency = "KRW";
  supports_market_buy = true;
  supports_market_sell = true;
  supports_limit_order = true;
  supports_stop_order = false;
  supports_fractional = false;
  supports_short = false;
  supports_after_hours = true;
  supports_websocket = false;
  supports_realtime_quote = false;
  supports_account_balance = true;
  supports_portfolio = true;
  fill_mechanism = "sync";
  price_type = "float";
  requires_exchange_code = false;
  requires_hashkey = false;
  cancel_requires_symbol = false;
  cancel_requires_qty_price = false;
  retry_safe_on_submit = true;
  rate_limit_per_sec = 9999;
  settlement_days = 0;
  has_securities_tax = true;
  securities_tax_rate = 2000;
  price_precision = ("SIM", 4) ∷ [];
  min_order_qty = 1;
  session_open_kst = none;
  session_close_kst = none;
}
