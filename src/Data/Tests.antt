-- ===== src/Data/Tests.antt =====
-- The theorems about the calendar, corporate actions and fresh data at concrete inputs.
use claude_code_and_vive_cod.Prelude.{
  Bool, List, ltb, ◌&&◌, ℕ, not, ◌==◌, leb, ◌+◌, ◌*◌, ◌/◌, ◌≡◌, ◌↔◌, refl, true, false, none, some,
  [], ◌∷◌, arith,
}
use claude_code_and_vive_cod.Floats.Sample.{whole_floats}
use claude_code_and_vive_cod.Data.CorporateActions.{
  split, confirmed, CorporateAction, Numbers, is_valid,
}
use claude_code_and_vive_cod.Data.CorporateActions.Detector.{
  near, match_quantity, is_preserved, quantity_match, classify_quantity_jump,
}
use claude_code_and_vive_cod.Data.CorporateActions.Runtime.{
  HistoryRow, Runtime, restore, is_blocked, record_action, mark_applied,
}
use claude_code_and_vive_cod.Data.CorporateActions.Gate.{restarted, record_action-IsBlocked}
use claude_code_and_vive_cod.Data.CorporateActions.Applying.{mark_applied-recorded_twice}
use claude_code_and_vive_cod.Data.CorporateActions.Labels.{
  Confirmed, classify_quantity_jump-Confirmed,
}
use claude_code_and_vive_cod.Data.Freshness.{Feed, record_update}
use claude_code_and_vive_cod.Data.Freshness.Gate.{
  FreshnessGate, validate_timestamp, assert_tradeable,
}
use claude_code_and_vive_cod.Data.Freshness.Passing.{
  is_passed, timely, given_in_time, validate_timestamp-timely,
}
use claude_code_and_vive_cod.Data.Freshness.Failures.{
  fail_all, failures_of, assert_tradeable-fail_all,
}
use claude_code_and_vive_cod.Data.Calendar.{Zones, Source, Service, Index, krx, nyse, get_holiday}
use claude_code_and_vive_cod.Data.Calendar.Permission.{check_order_permission}
use claude_code_and_vive_cod.Data.Calendar.Permits.{Permits, check_order_permission-Permits}
use claude_code_and_vive_cod.Data.Calendar.Outage.{check_order_permission-outage}

abbrev silent : Source
silent = record { get_holidays = λ m y. none; get_window = λ m d. none }

abbrev empty_table : Source
empty_table = record { get_holidays = λ m y. some []; get_window = λ m d. none }

abbrev half_day : Source
half_day = record {
  get_holidays = λ m y.
      some (
        record { date = 8; name = "Eve"; is_early_close = true; early_close_time = some 780 } ∷ []);
  get_window = λ m d. none;
}

-- One time zone without an offset, in minutes.
abbrev zones : Zones
zones = record { local_date = λ m t. t / 1440; utc_of = λ m d minute. d * 1440 + minute }

abbrev service : Source → Service
service primary = record {
  zones = zones;
  primary = primary;
  fallback = empty_table;
  year_of = λ d. 2027;
  allow_premarket = false;
  allow_afterhours = true;
}

abbrev nothing_loaded : Index
nothing_loaded = record { holidays = λ m d. none; loaded = λ m y. false }

-- Ordinal 8 is a Monday; its half day ends at 13:00.
check_order_permission-Permits_example :
    ((check_order_permission (service half_day) nyse (8 * 1440 + 800) nothing_loaded).0.allowed
      ≡ true)
    ↔ Permits
        (service half_day)
        nyse
        (8 * 1440 + 800)
        (get_holiday (service half_day) nyse 8 nothing_loaded).0
check_order_permission-Permits_example =
    check_order_permission-Permits (service half_day) nyse (8 * 1440 + 800) nothing_loaded

check_order_permission-outage_example :
    (check_order_permission (service silent) krx (8 * 1440 + 600) nothing_loaded).0.allowed ≡ true
check_order_permission-outage_example =
    check_order_permission-outage (service silent) (8 * 1440 + 600) nothing_loaded refl refl refl
      refl (omega arith) (omega arith) (omega arith) (omega arith)

abbrev numbers : Numbers ℕ
numbers = record {
  ops = whole_floats;
  is_positive = leb 1;
  is_not_one = λ x. not (x == 1);
  equal = λ x y. x == y;
  one = 1;
  tiny = 0;
  tolerance = 1;
  value_tolerance = 1;
  known_ratios = 2 ∷ 3 ∷ [];
}

abbrev two_for_one : CorporateAction ℕ
two_for_one = record {
  action_type = split;
  symbol = "AAPL";
  effective_date = 8;
  status = confirmed;
  ratio = some 2;
  cash_amount = none;
  new_symbol = none;
  source = "manual";
  detail = "";
}

abbrev fresh_runtime : Runtime ℕ
fresh_runtime = record {
  service = record { pending = []; history = []; audits = [] };
  rows = [];
  history = [];
}

abbrev doubled : HistoryRow ℕ
doubled = record {
  symbol = "AAPL";
  qty_before = 10;
  avg_before = 100;
  qty_after = 20;
  avg_after = 50;
}

record_action-IsBlocked_example :
    ((is_blocked "AAPL" (record_action numbers false two_for_one fresh_runtime)).0 ≡ true)
    × ((t : Runtime ℕ) × (restore true
            (restarted (record_action numbers true two_for_one fresh_runtime))
          ≡ some t)
        × ((is_blocked "AAPL" t).0 ≡ true))
record_action-IsBlocked_example = record_action-IsBlocked numbers false two_for_one fresh_runtime

mark_applied-recorded_twice_example :
    (is_blocked "AAPL" (
      mark_applied numbers true two_for_one doubled (
        record_action numbers true two_for_one
          (record_action numbers false two_for_one fresh_runtime)))).0
    ≡ true
unfolding is_valid
mark_applied-recorded_twice_example =
    mark_applied-recorded_twice numbers true false true two_for_one doubled fresh_runtime refl

classify_quantity_jump-Confirmed_example :
    Confirmed numbers 10 100 20 50
      (classify_quantity_jump numbers "AAPL" 10 100 20 50 8 "").action_type
      (classify_quantity_jump numbers "AAPL" 10 100 20 50 8 "").ratio
unfolding classify_quantity_jump quantity_match
    claude_code_and_vive_cod.Data.CorporateActions.Detector.match_quantity
    claude_code_and_vive_cod.Data.CorporateActions.Detector.near
    claude_code_and_vive_cod.Data.CorporateActions.Detector.is_preserved
classify_quantity_jump-Confirmed_example =
    classify_quantity_jump-Confirmed numbers "AAPL" 10 100 20 50 8 "" refl

abbrev daily : Feed
daily = record {
  storage_key = "AAPL::daily_bar";
  checker = record { warn_after = 300; stale_after = 600 };
}

abbrev new_gate : FreshnessGate
new_gate = record { detector = record { sources = []; last_state = []; audits = [] }; halts = [] }

validate_timestamp-timely_example :
    is_passed (validate_timestamp true true false daily (some 1000) 1500 new_gate).0
    ≡ given_in_time true false daily.checker (some 1000) 1500
validate_timestamp-timely_example =
    validate_timestamp-timely true false daily (some 1000) 1500 new_gate

abbrev two_failures : List (Bool × (Feed × ℕ))
two_failures = (false, (daily, 1100)) ∷ (false, (daily, 1200)) ∷ []

assert_tradeable-fail_all_example :
    is_passed
      (assert_tradeable true true false daily 1300 (record new_gate {
        detector =
            fail_all 5 two_failures (record_update false daily 1000 1000 new_gate.detector).1;
      })).0
    ≡ (ltb (failures_of "AAPL::daily_bar" two_failures) 5 && timely daily.checker 1000 1300)
assert_tradeable-fail_all_example =
    assert_tradeable-fail_all true 5 false daily 1000 1000 1300 two_failures new_gate (omega arith)
