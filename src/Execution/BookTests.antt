-- ===== src/Execution/BookTests.antt =====
-- The theorems of the failure breaker and of the fill reconciler at concrete runs.
use claude_code_and_vive_cod.Prelude.{ℕ, ◌≡◌, false, List, [], ◌∷◌, pos, some}
use claude_code_and_vive_cod.Execution.FailureBreaker.{FailureBreaker, record_success, is_open}
use claude_code_and_vive_cod.Execution.FailureBreaker.Trips.{
  fail_all, open_until, fail_all-open_until,
}
use claude_code_and_vive_cod.Execution.FillReconciler.{
  OrderRow, Tables, select_rows, existing_filled_qty, sync_fills_all_open_orders,
}
use claude_code_and_vive_cod.Execution.FillReconciler.Totals.{target, sync_fills-total}

abbrev worn : FailureBreaker
worn = record { failures = 2; tripped_at = some 5 }

abbrev four_failures : List ℕ
four_failures = 10 ∷ 20 ∷ 30 ∷ 40 ∷ []

fail_all-open_until_example :
    (is_open 1800 1825 (fail_all 3 four_failures (record_success worn))).0
    ≡ open_until 1800 1825 (some 30)
fail_all-open_until_example = fail_all-open_until 2 1800 1825 four_failures worn

abbrev book : List (OrderRow ℕ)
book =
    record {
      id = 1;
      broker = "kis";
      symbol = "AAPL";
      status = "partial_filled";
      filled_qty = pos 6;
      fill_price = 150;
    }
    ∷ record {
      id = 2;
      broker = "kis";
      symbol = "MSFT";
      status = "submitted";
      filled_qty = pos 0;
      fill_price = 0;
    }
    ∷ []

abbrev fills_so_far : Tables ℕ
fills_so_far = record {
  fills = record { order_id = 1; qty = pos 4; price = 149 } ∷ [];
  repairs = [];
}

sync_fills-total_example :
    existing_filled_qty 1 (sync_fills_all_open_orders "kis" false book fills_so_far).fills
    ≡ target 1 (select_rows "kis" book) (existing_filled_qty 1 fills_so_far.fills)
sync_fills-total_example = sync_fills-total "kis" 1 book fills_so_far
