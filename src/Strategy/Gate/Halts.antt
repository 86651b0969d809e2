-- ===== src/Strategy/Gate/Halts.antt =====
-- What a live order that passes the gate during a halt is.
use claude_code_and_vive_cod.Prelude.{
  ◌≡◌, ◌≢◌, refl, ◌⊎◌, Bool, true, Option, some, String, str_eq, arith,
}
use claude_code_and_vive_cod.Values.{PyValue}
use claude_code_and_vive_cod.Risk.Sellable.{pass}
use claude_code_and_vive_cod.Risk.HaltPolicy.{
  HaltCause, untrusted_state, risk_breach, degraded_feed, record_failure, exit, entry, is_allowed,
  prove_exit,
}
use claude_code_and_vive_cod.Risk.HaltPolicy.Exits.{IsProven, prove_exit-IsProven}
use claude_code_and_vive_cod.Strategy.Gate.{
  LiveBroker, classify, resolved_price, priced, price_gate, halt_gate, live_trade_allowed,
}

-- A risk-reducing sell: proven against the live positions, under a halt whose cause leaves the
-- positions trusted, and at a valid price if the feed is degraded.
pub record IsSafeExit (cause : HaltCause) (broker : LiveBroker) (symbol side : String)
    (qty : PyValue) (price : Option PyValue) : Type 0 where
  pub sells : str_eq side "sell" ≡ true
  pub trusted : cause ≢ untrusted_state
  pub proven : IsProven broker.get_positions symbol qty
  pub at_price : cause ≡ degraded_feed → priced (resolved_price broker symbol price) ≡ true

module _ (cause : HaltCause) (broker : LiveBroker) (symbol side : String) (qty : PyValue)
    (price : Option PyValue)
    (passed : halt_gate (some cause) broker symbol side qty price ≡ true) where
  exit_or_entry :
      (classify broker symbol side qty ≡ exit) ⊎ (classify broker symbol side qty ≡ entry)
  unfolding classify
  exit_or_entry = ground arith

  halted-exit : (classify broker symbol side qty ≡ exit) × (cause ≢ untrusted_state)
  unfolding halt_gate is_allowed
  halted-exit = ground (arith, exit_or_entry)

  exit-pass : (str_eq side "sell" ≡ true) × (prove_exit broker.get_positions symbol qty ≡ pass)
  unfolding classify
  exit-pass = ground (arith, halted-exit)

  exit-priced : cause ≡ degraded_feed → priced (resolved_price broker symbol price) ≡ true
  unfolding halt_gate price_gate
  exit-priced e = ground (arith, halted-exit)

  halt_gate-IsSafeExit : IsSafeExit cause broker symbol side qty price
  halt_gate-IsSafeExit = record {
    sells = exit-pass.0;
    trusted = halted-exit.1;
    proven = prove_exit-IsProven broker.get_positions symbol qty exit-pass.1;
    at_price = exit-priced;
  }

-- On a live broker during a halt the gate lets only a safe exit through, and that only with live
-- trading enabled: a sell that the live positions prove to reduce a holding, never while the
-- position state is untrusted, and under a degraded feed only at a valid price.
pub live_trade_allowed-IsSafeExit :
    (cause : HaltCause) (live_trading : Bool) (broker : LiveBroker) (symbol side : String)
    (qty : PyValue) (price : Option PyValue)
    → broker.is_live ≡ true
    → live_trade_allowed
        (record { halt_cause = some cause; live_trading = live_trading })
        broker
        symbol
        side
        qty
        price
      ≡ true
    → (live_trading ≡ true) × IsSafeExit cause broker symbol side qty price
unfolding live_trade_allowed
live_trade_allowed-IsSafeExit cause live_trading broker symbol side qty price live passed =
    (ground arith, halt_gate-IsSafeExit cause broker symbol side qty price (ground arith))

-- With live trading enabled a sell that is proven to reduce a holding passes every halt but that
-- of untrusted state, at a valid price if the feed is degraded.
pub safe_exit_passes :
    (cause : HaltCause) (broker : LiveBroker) (symbol : String) (qty : PyValue)
    (price : Option PyValue)
    → cause ≢ untrusted_state
    → prove_exit broker.get_positions symbol qty ≡ pass
    → (cause ≡ degraded_feed → priced (resolved_price broker symbol price) ≡ true)
    → live_trade_allowed
        (record { halt_cause = some cause; live_trading = true })
        broker
        symbol
        "sell"
        qty
        price
      ≡ true
unfolding live_trade_allowed halt_gate classify is_allowed price_gate
safe_exit_passes untrusted_state broker symbol qty price trusted proven at_price =
    absurd (trusted refl)
safe_exit_passes risk_breach broker symbol qty price trusted proven at_price = ground arith
safe_exit_passes degraded_feed broker symbol qty price trusted proven at_price =
    ground (arith, at_price refl)
safe_exit_passes record_failure broker symbol qty price trusted proven at_price = ground arith
