-- ===== src/Execution/ReconcileTests.antt =====
-- The theorems of the position reconciler at concrete runs.
use claude_code_and_vive_cod.Prelude.{
  ℕ, ◌≡◌, ◌≢◌, refl, Bool, true, false, none, some, [], ◌∷◌, String, arith, ◌==◌, not, pos, inr,
}
use claude_code_and_vive_cod.Dict.{Dict, lookup}
use claude_code_and_vive_cod.Brokers.Models.{Order, Position, filled}
use claude_code_and_vive_cod.Execution.PositionReconciler.{PosRow, Setup, Session}
use claude_code_and_vive_cod.Execution.PositionReconciler.Positions.{compare_positions}
use claude_code_and_vive_cod.Execution.PositionReconciler.Rows.Settled.{
  Agrees, by_time, compare_positions-moved,
}
use claude_code_and_vive_cod.Execution.PositionReconciler.OrderPass.{
  Book, OrderSession, OrderSetup, found, no_poller, answered, sync_order_status,
  reconcile_pending_orders, pass_raised,
}
use claude_code_and_vive_cod.Execution.PositionReconciler.OrderPass.Fills.{
  IsSingle, sync_order_status-owned, reconcile_pending_orders-IsSingle,
}
use claude_code_and_vive_cod.Execution.PositionReconciler.Run.{
  Fetch, listed, unimplemented, Run, World, by_symbol, reconcile,
}
use claude_code_and_vive_cod.Execution.PositionReconciler.Runs.{
  reconcile-Agrees, reconcile-unimplemented, reconcile-failed_commit,
}
use claude_code_and_vive_cod.Execution.PositionReconciler.Runs.Dry.{WritesNothing, reconcile-dry}

abbrev row : ℕ → PosRow ℕ
row n = record { id = 1; qty = pos n; avg_price = 150; market = "US"; updated_at = some 0 }

abbrev held : ℕ → Position ℕ
held n = record {
  symbol = "AAPL";
  qty = pos n;
  avg_price = 150;
  market = "US";
  current_price = 151;
  sellable_qty = some (pos n);
}

abbrev setup : Bool → Setup ℕ String
setup dry_run = record {
  now = 7200000000;
  dry_run = dry_run;
  same_price = λ a b. a == b;
  drifted = λ a b. not (a == b);
  new_id = λ symbol. 9;
  ca_runtime = none;
  orders = [];
}

abbrev table : ℕ → Dict (PosRow ℕ)
table n = ("AAPL", row n) ∷ []

abbrev session : ℕ → Session ℕ String
session n = record { table = table n; gaps = []; repairs = []; recorded = []; confirmed = [] }

-- A purchase and a sale of one size came in between.
abbrev moved_session : Session ℕ String
moved_session = record (session 10) {
  table = ("AAPL", record (row 10) { updated_at = some 5 }) ∷ [];
}

abbrev five : ℕ
five = 5

later_write : some five ≢ some 0
later_write e = ground arith

compare_positions-moved_example :
    lookup "AAPL"
      (compare_positions (setup false) (table 10) (("AAPL", held 12) ∷ []) moved_session).table
    ≡ lookup "AAPL" moved_session.table
unfolding lookup
compare_positions-moved_example =
    compare_positions-moved (setup false) "AAPL" (table 10) (("AAPL", held 12) ∷ []) moved_session
      (refl, tt) (refl, tt) (by_time later_write)

abbrev filled_order : Order ℕ
filled_order = record {
  id = "B1";
  symbol = "AAPL";
  side = "buy";
  qty = pos 2;
  price = 150;
  status = filled;
  filled_qty = pos 2;
  avg_fill_price = 151;
  cumulative_filled_qty = none;
}

abbrev order_setup : OrderSetup ℕ
order_setup = record {
  now = 7200000000;
  dry_run = false;
  is_zero = λ n. n == 0;
  get_order_status = λ id symbol. found filled_order;
  resync = λ order book. (no_poller, book);
}

abbrev owned_setup : OrderSetup ℕ
owned_setup = record order_setup { resync = λ order book. (answered true false, book) }

abbrev book : Book ℕ
book = record {
  orders =
      record {
        id = 4;
        broker_order_id = some "B1";
        symbol = "AAPL";
        qty = pos 2;
        price = 150;
        status = "submitted";
        filled_qty = pos 0;
        avg_fill_price = 0;
        created_at = 0;
        updated_at = none;
      }
      ∷ [];
  fills = [];
}

abbrev order_session : OrderSession ℕ
order_session = record { book = book; gaps = []; repairs = []; errors = []; cancels = [] }

sync_order_status-owned_example :
    (sync_order_status owned_setup 4 filled_order order_session).book.fills ≡ []
sync_order_status-owned_example =
    sync_order_status-owned owned_setup 4 filled_order order_session refl (inr (false, refl))

reconcile_pending_orders-IsSingle_example :
    IsSingle 4 (reconcile_pending_orders order_setup order_session)
unfolding claude_code_and_vive_cod.Execution.PositionReconciler.OrderPass.Fills.count_fills
reconcile_pending_orders-IsSingle_example =
    reconcile_pending_orders-IsSingle order_setup (λ order b. refl) 4 order_session (omega arith)

abbrev run : Bool → Bool → Fetch ℕ → Run ℕ String
run dry_run commits fetch = record {
  dry_run = dry_run;
  position_setup = setup dry_run;
  order_setup = order_setup;
  fetch = fetch;
  snapshot = table 10;
  commits = commits;
}

abbrev world : World ℕ String
world = record {
  is_busy = false;
  positions = table 10;
  book = book;
  cancels = [];
  recorded = [];
  applied = [];
  logs = [];
  alerts = [];
}

abbrev holding : Fetch ℕ
holding = listed (held 12 ∷ [])

reconcile-Agrees_example :
    Agrees
      (setup false)
      (lookup "AAPL" (by_symbol [] (held 12 ∷ [])))
      (lookup "AAPL" (reconcile (run false true holding) world).0.positions)
unfolding lookup claude_code_and_vive_cod.Execution.PositionReconciler.has_pending_order
reconcile-Agrees_example =
    reconcile-Agrees (run false true holding) world refl refl refl (refl, tt) "AAPL" refl refl refl
      (held 12 ∷ []) refl

reconcile-unimplemented_example :
    lookup "AAPL" (reconcile (run false true unimplemented) world).0.positions ≡ none
unfolding lookup claude_code_and_vive_cod.Execution.PositionReconciler.has_pending_order
reconcile-unimplemented_example =
    reconcile-unimplemented (run false true unimplemented) world refl refl refl (refl, tt) "AAPL"
      refl refl refl refl refl refl

reconcile-failed_commit_example :
    let after = reconcile (run false false holding) world in
    (after.0.positions ≡ table 10)
    × (after.0.applied ≡ [])
    × (after.0.book ≡ book)
    × (after.0.cancels ≡ [])
    × (after.1.errors ≡ pass_raised ∷ [])
reconcile-failed_commit_example =
    reconcile-failed_commit (run false false holding) world (held 12 ∷ []) refl refl refl refl

reconcile-dry_example : WritesNothing (reconcile (run true true holding) world) world
reconcile-dry_example = reconcile-dry (run true true holding) world refl
