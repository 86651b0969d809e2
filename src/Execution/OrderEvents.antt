-- ===== src/Execution/OrderEvents.antt =====
-- backend/execution/order_events.py, with a machine and a tracker given. An audit row is its status
-- and whether the order was moved; the row's text and the database are left out.
pub mod Convergence
use claude_code_and_vive_cod.Prelude.{
  Bool, true, false, Option, none, some, List, ◌∷◌, if◌then◌else◌,
}
use claude_code_and_vive_cod.Brokers.Models.{
  OrderStatus, partial_filled, filled, canceled, rejected, expired, Order,
}
use claude_code_and_vive_cod.Execution.OrderMachine.{Machine, Result, ok, err, get, transition}
use claude_code_and_vive_cod.Execution.PositionTracker.{Tracker, unmark_pending}

-- `_TERMINAL`
abbrev pub is_terminal : OrderStatus → Bool
is_terminal filled = true
is_terminal canceled = true
is_terminal rejected = true
is_terminal expired = true
is_terminal _ = false

-- `_TERMINAL_NEGATIVE`
abbrev pub is_negative : OrderStatus → Bool
is_negative canceled = true
is_negative rejected = true
is_negative expired = true
is_negative _ = false

pub record Runtime (F W : Type 0) : Type 0 where
  pub machine : Machine F W
  pub tracker : Tracker F
  pub audits : List (OrderStatus × Bool)

-- The status that an order of the second status is moved to by an event of the first.
unfoldable pub converged : OrderStatus → OrderStatus → OrderStatus
converged rejected partial_filled = canceled
converged status _ = status

abbrev pub event_status : Option OrderStatus → OrderStatus → OrderStatus
event_status none status = status
event_status (some target) status = target

abbrev is_ok : {A : Type 0} → Result A → Bool
is_ok (ok a) = true
is_ok (err e) = false

module _ {F W : Type 0} where
  abbrev pub release : Order F → Runtime F W → Runtime F W
  release order rt = record rt { tracker = unmark_pending order.symbol rt.tracker }

  abbrev pub audit : OrderStatus → Bool → Runtime F W → Runtime F W
  audit status transitioned rt = record rt { audits = (status, transitioned) ∷ rt.audits }

module _ {F W : Type 0} (on_change : Order F → W → Bool × W) where
  -- The order that the machine knows. What `transition` raises is swallowed, and the lock is given
  -- back all the same.
  unfoldable pub event_known : Order F → OrderStatus → Order F → Runtime F W → Bool × Runtime F W
  event_known order status o rt =
      let status' = converged status o.status in
      let (r, m) = transition on_change order.id status' rt.machine in
      let moved = record rt { machine = m } in
      if is_terminal o.status
      then (false, audit status false rt)
      else (is_ok r, audit status' (is_ok r) (release order moved))

  unfoldable pub event_found :
      Order F → OrderStatus → Option (Order F) → Runtime F W → Bool × Runtime F W
  event_found order status none rt = (false, audit status false (release order rt))
  event_found order status (some o) rt = event_known order status o rt

  unfoldable pub apply_terminal_event :
      Order F → Option OrderStatus → Runtime F W → Bool × Runtime F W
  apply_terminal_event order target rt =
      let status = event_status target order.status in
      if is_negative status
      then event_found order status (get rt.machine order.id) rt
      else (false, rt)
