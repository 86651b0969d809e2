-- ===== src/Execution/Tests.antt =====
-- The theorems of the execution modules at concrete orders and runs.
use claude_code_and_vive_cod.Prelude.{
  ℕ, ◌≡◌, ◌⊎◌, refl, Bool, true, none, some, List, [], ◌∷◌, pos, ◌+ℤ◌, ◌<ℤ◌, ◌≤ℤ◌, arith,
}
use claude_code_and_vive_cod.Dict.{lookup}
use claude_code_and_vive_cod.Floats.Sample.{whole_floats}
use claude_code_and_vive_cod.Brokers.Models.{Order, rejected, pending, submitted, filled, canceled}
use claude_code_and_vive_cod.Execution.OrderMachine.{
  Machine, FillEvent, get, transition, process_fill,
}
use claude_code_and_vive_cod.Execution.OrderMachine.Transition.{Moves, transition-Moves}
use claude_code_and_vive_cod.Execution.OrderMachine.Fill.{
  IsFilled, Refuses, Adds, process_fill-cases,
}
use claude_code_and_vive_cod.Execution.OrderEvents.{Runtime, converged, apply_terminal_event}
use claude_code_and_vive_cod.Execution.OrderEvents.Convergence.{terminal_event_once}
use claude_code_and_vive_cod.Execution.PositionTracker.{Tracker}
use claude_code_and_vive_cod.Prelude.{inl, false}
use claude_code_and_vive_cod.Execution.OrderMachine.Traces as Traces

abbrev quiet : Order ℕ → ℕ → Bool × ℕ
quiet o w = (true, w)

abbrev new_order : Order ℕ
new_order = record {
  id = "local";
  symbol = "AAPL";
  side = "buy";
  qty = pos 10;
  price = 150;
  status = pending;
  filled_qty = pos 0;
  avg_fill_price = 0;
  cumulative_filled_qty = none;
}

abbrev live_order : Order ℕ
live_order = record new_order { id = "B1"; status = submitted }

abbrev done_order : Order ℕ
done_order = record new_order { id = "B2"; status = filled; filled_qty = pos 10 }

abbrev machine : Machine ℕ ℕ
machine = record {
  orders = ("local", new_order) ∷ ("B1", live_order) ∷ ("B2", done_order) ∷ [];
  world = 0;
}

abbrev part_fill : FillEvent ℕ
part_fill = record { order_id = "B1"; filled_qty = pos 4; fill_price = 151 }

abbrev early_fill : FillEvent ℕ
early_fill = record part_fill { order_id = "local" }

transition-Moves_example : Moves "B1" canceled machine (transition quiet "B1" canceled machine)
transition-Moves_example = transition-Moves quiet "B1" canceled machine

process_fill-cases_example :
    (Refuses machine (process_fill ⦃fl = whole_floats⦄ quiet part_fill machine)
      × ((pos 4 ≤ℤ pos 0) ⊎ (pos 10 <ℤ pos 0 +ℤ pos 4)))
    ⊎ Adds part_fill live_order machine (process_fill ⦃fl = whole_floats⦄ quiet part_fill machine)
unfolding get lookup
process_fill-cases_example =
    process_fill-cases ⦃fl = whole_floats⦄ quiet part_fill machine live_order refl

new-IsFilled : IsFilled new_order
new-IsFilled = record { from_zero = omega arith; to_qty = omega arith }

live-IsFilled : IsFilled live_order
live-IsFilled = record { from_zero = omega arith; to_qty = omega arith }

done-IsFilled : IsFilled done_order
done-IsFilled = record { from_zero = omega arith; to_qty = omega arith }

abbrev machine_calls : List (Traces.MachineCall ℕ)
machine_calls = Traces.fill part_fill ∷ Traces.move "B2" canceled ∷ Traces.move "B1" canceled ∷ []

run-Follows_example :
    (q : Order ℕ) × (get (Traces.run ⦃fl = whole_floats⦄ quiet machine_calls machine) "B1" ≡ some q)
    × Traces.Follows live_order q
unfolding get lookup
run-Follows_example =
    Traces.run-Follows ⦃fl = whole_floats⦄ quiet machine_calls "B1" live_order machine refl
      live-IsFilled

abbrev runtime : Runtime ℕ ℕ
runtime = record {
  machine = machine;
  tracker = record { positions = []; pending_symbols = ("AAPL", 100) ∷ [] };
  audits = [];
}

abbrev newer_tracker : Tracker ℕ
newer_tracker = record { positions = []; pending_symbols = ("AAPL", 900) ∷ [] }

terminal_event_once_example :
    let (moved, rt') = apply_terminal_event quiet live_order (some rejected) runtime in
    let (again, rt'') =
      apply_terminal_event quiet live_order
        (some rejected)
        (record rt' { tracker = newer_tracker }) in
    (moved ≡ true)
    × (get rt'.machine "B1" ≡ some (record live_order { status = rejected }))
    × (true ≡ true)
    × (lookup "AAPL" rt'.tracker.pending_symbols ≡ none)
    × ((again ≡ false) × (rt''.machine ≡ rt'.machine) × (rt''.tracker ≡ newer_tracker))
unfolding get lookup converged
terminal_event_once_example =
    terminal_event_once quiet live_order (some rejected) runtime live_order newer_tracker refl refl
      refl (inl (λ e. cc)) refl
