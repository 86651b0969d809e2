-- ===== src/Risk/Tests.antt =====
-- The theorems of the risk modules at concrete inputs.
use claude_code_and_vive_cod.Prelude.{
  ℕ, ◌≤◌, ◌≡◌, refl, true, false, none, some, List, [], ◌∷◌, pos, arith,
}
use claude_code_and_vive_cod.Values.{int_value}
use claude_code_and_vive_cod.Text.{codes}
use claude_code_and_vive_cod.Floats.Sample.{whole_floats}
use claude_code_and_vive_cod.Risk.KillSwitch.{
  warning, halted, critical, broker_failure, KillTrigger, KillTriggerEngine, Report,
  broker_failures, error_count, mismatches, KillSwitch, check_says, check_order, new, amend, cancel,
}
use claude_code_and_vive_cod.Risk.KillSwitch.Escalation.{
  SwitchCall, reports, resumes, run, IsHaltedSince, run_halted,
}
use claude_code_and_vive_cod.Risk.Sellable.{
  OrderRow, BrokerPosition, reserves, resolve_sellable, validate_sell_qty,
  pending_sell_qty_from_rows, as_count,
}
use claude_code_and_vive_cod.Risk.Sellable.Pending.{reserved_sell_covered}

abbrev waiting_sell : OrderRow
waiting_sell = record {
  symbol = codes "AAPL";
  side = codes "sell";
  qty = int_value (pos 4);
  status = codes "approved";
}

abbrev new_sell : OrderRow
new_sell = record {
  symbol = codes "aapl";
  side = codes "SELL";
  qty = int_value (pos 5);
  status = codes "pending";
}

reserved_sell_covered_example :
    (total : ℕ) × (pending_sell_qty_from_rows (new_sell ∷ waiting_sell ∷ []) (codes "AAPL")
      ≡ some total)
    × (total ≤ 10)
    × (total ≤ 9)
unfolding pending_sell_qty_from_rows validate_sell_qty resolve_sellable reserves
    claude_code_and_vive_cod.Text.text_eq claude_code_and_vive_cod.Text.text_mem as_count
    claude_code_and_vive_cod.Values.double_of_nat
reserved_sell_covered_example =
    reserved_sell_covered (codes "AAPL") (waiting_sell ∷ []) new_sell 10 9 4 (ground arith)
      (ground arith) (ground arith) refl refl refl

abbrev apple : BrokerPosition
apple = record {
  symbol = "AAPL";
  qty = int_value (pos 10);
  sellable_qty = int_value (pos 8);
  avg_price = int_value (pos 150);
  market = "US";
}

abbrev engine : KillTriggerEngine ℕ
engine = record {
  broker_warn = pos 2;
  broker_crit = pos 5;
  errors_warn = pos 3;
  errors_crit = pos 8;
  mismatch_warn = pos 1;
  mismatch_crit = pos 3;
  daily_loss_warn = 2;
  daily_loss_crit = 3;
  mdd_warn = 12;
  mdd_crit = 15;
}

abbrev halted_switch : KillSwitch
halted_switch = record { state = halted; halted_at = some 1000; log = []; effects = [] }

abbrev wary_switch : KillSwitch
wary_switch = record { state = warning; halted_at = none; log = []; effects = [] }

abbrev busy_hour : List (SwitchCall ℕ)
busy_hour =
    reports 1010 (broker_failures (pos 2)) ∷ resumes 1200 "operator" (check_says true ∷ []) ∷ []

run_halted_example :
    let s' = run ⦃fl = whole_floats⦄ engine 300 busy_hour halted_switch in
    IsHaltedSince 1000 s'
    × (check_order true new s' ≡ false)
    × (check_order true amend s' ≡ false)
    × (check_order true cancel s' ≡ true)
run_halted_example =
    run_halted ⦃fl = whole_floats⦄ engine 300 1000 busy_hour halted_switch true
      (tt, (ground arith, tt)) (record { is_halted = refl; since = refl })

abbrev day_of_reports : List (ℕ × Report ℕ)
day_of_reports = (10, error_count (pos 8)) ∷ (20, mismatches (pos 1)) ∷ []

abbrev broker_down : KillTrigger
broker_down = record { trigger_type = broker_failure; severity = critical }
