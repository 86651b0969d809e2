-- ===== src/Execution/RuntimeTests.antt =====
-- The theorems of the tracker and of the poller at concrete runs.
use claude_code_and_vive_cod.Prelude.{
  ℕ, ◌≡◌, refl, true, false, none, some, List, [], ◌∷◌, String, pos, ◌+ℤ◌, ◌≤ℤ◌, arith, All,
}
use claude_code_and_vive_cod.Dict.{lookup}
use claude_code_and_vive_cod.Floats.Sample.{whole_floats}
use claude_code_and_vive_cod.Values.{int_value}
use claude_code_and_vive_cod.Brokers.Models.{Order, Position, submitted, partial_filled, filled}
use claude_code_and_vive_cod.Risk.Sellable.{BrokerPosition}
use claude_code_and_vive_cod.Execution.PositionTracker.{
  Tracker, Fill, try_mark_pending, can_place_order, on_fill, claim_ca_exit,
}
use claude_code_and_vive_cod.Execution.PositionTracker.LockCalls.{TrackerCall, can_place, prices}
use claude_code_and_vive_cod.Execution.PositionTracker.Locks.{run, try_mark_pending_excludes}
use claude_code_and_vive_cod.Execution.PositionTracker.Holdings.{IsLong, Applies, on_fill-Applies}
use claude_code_and_vive_cod.Execution.PositionTracker.Exits.{Claims, claim_ca_exit-Claims}
use claude_code_and_vive_cod.Execution.OrderPoller.Health.{Clock, new_monitor}
use claude_code_and_vive_cod.Execution.OrderPoller.Entry.{PollEntry, Poller}
use claude_code_and_vive_cod.Execution.OrderPoller.Loop.{Visit, answers, poll_due}
use claude_code_and_vive_cod.Execution.OrderPoller.Breaker.{Lookup, answered, failed}
use claude_code_and_vive_cod.Execution.OrderPoller.Watermark.{Report, delivered, drive, drive_exact}
use claude_code_and_vive_cod.Execution.OrderPoller.Backing.{Backed}
use claude_code_and_vive_cod.Execution.OrderPoller.Timeouts.{poll_due-Backed}

abbrev no_tracker : Tracker ℕ
no_tracker = record { positions = []; pending_symbols = [] }

abbrev an_hour : List (TrackerCall ℕ)
an_hour = can_place "AAPL" 600 ∷ prices (("AAPL", 151) ∷ []) ∷ []

try_mark_pending_excludes_example :
    let t' =
      run ⦃fl = whole_floats⦄ none an_hour (try_mark_pending none "AAPL" 100 100 no_tracker).1 in
    (try_mark_pending none "AAPL" 1500 1500 t' ≡ (false, t'))
    × (can_place_order none "AAPL" 1500 t' ≡ (false, t'))
unfolding try_mark_pending claude_code_and_vive_cod.Execution.PositionTracker.ca_blocked lookup
try_mark_pending_excludes_example =
    try_mark_pending_excludes ⦃fl = whole_floats⦄ none "AAPL" 100 100 no_tracker an_hour 1500 1500
      refl (ground arith) (ground arith)

abbrev held : Position ℕ
held = record {
  symbol = "AAPL";
  qty = pos 10;
  avg_price = 150;
  market = "US";
  current_price = 151;
  sellable_qty = none;
}

abbrev holder : Tracker ℕ
holder = record { positions = ("AAPL", held) ∷ []; pending_symbols = ("AAPL", 100) ∷ [] }

abbrev sold : Fill ℕ
sold = record {
  order_id = "B1";
  symbol = "AAPL";
  side = "sell";
  qty = pos 4;
  price = 152;
  market = "US";
}

holder-IsLong : IsLong holder
unfolding lookup
holder-IsLong = record { long = λ symbol p h. ground arith }

on_fill-Applies_example :
    Applies ⦃fl = whole_floats⦄ sold holder (on_fill ⦃fl = whole_floats⦄ sold holder)
on_fill-Applies_example =
    on_fill-Applies ⦃fl = whole_floats⦄ sold holder holder-IsLong (ground arith)

abbrev apple : BrokerPosition
apple = record {
  symbol = "AAPL";
  qty = int_value (pos 10);
  sellable_qty = int_value (pos 8);
  avg_price = int_value (pos 150);
  market = "US";
}

claim_ca_exit-Claims_example :
    Claims ⦃fl = whole_floats⦄ "AAPL" 100 101 no_tracker
      (some (apple ∷ []))
      (claim_ca_exit ⦃fl = whole_floats⦄ "AAPL" (some (apple ∷ [])) 100 101 no_tracker)
claim_ca_exit-Claims_example =
    claim_ca_exit-Claims ⦃fl = whole_floats⦄ "AAPL" 100 101 no_tracker (some (apple ∷ []))

abbrev at : ℕ → Clock
at n = record { monotonic = n; wall = n }

abbrev outage : List Lookup
outage =
    answered (at 1)
    ∷ failed (at 2)
    ∷ failed (at 3)
    ∷ failed (at 4)
    ∷ failed (at 5)
    ∷ failed (at 6)
    ∷ failed (at 70)
    ∷ []

abbrev live_order : Order ℕ
live_order = record {
  id = "B1";
  symbol = "AAPL";
  side = "buy";
  qty = pos 10;
  price = 150;
  status = submitted;
  filled_qty = pos 0;
  avg_fill_price = 0;
  cumulative_filled_qty = none;
}

abbrev old_entry : PollEntry ℕ
old_entry = record {
  order = live_order;
  has_canceled = true;
  has_rejected = true;
  has_expired = true;
  registered_at = 0;
  poll_index = 0;
  next_poll_at = 0;
  last_reported_qty = pos 0;
  terminal_fired = false;
  timeout_deferred_reported = false;
}

abbrev partly : Report ℕ
partly = record {
  clock = at 20;
  order = record live_order { status = partial_filled; filled_qty = pos 4 };
  returns = true;
}

abbrev fully : Report ℕ
fully = record {
  clock = at 50;
  order = record live_order { status = filled; filled_qty = pos 10 };
  returns = true;
}

drive_exact_example :
    let (e', es) = drive (partly ∷ partly ∷ fully ∷ []) old_entry in
    (e'.last_reported_qty ≡ pos 0 +ℤ delivered es) × (pos 0 ≤ℤ e'.last_reported_qty)
drive_exact_example = drive_exact (partly ∷ partly ∷ fully ∷ []) old_entry

abbrev poller : Poller ℕ
poller = record { entries = ("B1", old_entry) ∷ []; monitor = new_monitor; events = [] }

abbrev still_live : String → Visit ℕ
still_live key = record { clock = at 2000; reply = answers (some live_order); returns = true }

poll_due-Backed_example : All (Backed still_live) (poll_due true still_live 2000 poller).events
poll_due-Backed_example = poll_due-Backed still_live true 2000 poller
