-- ===== src/Execution/OrderMachine.antt =====
-- backend/execution/order_machine.py. The machine owns its orders: each `Order` object stands
-- under one key, so mutating it is writing to that key. `on_change` acts on a world `W` of its
-- own and returns, or raises (`false`). The lock makes each method one step.
pub mod Graph
pub mod Transition
pub mod Fill
pub mod Traces
use claude_code_and_vive_cod.Prelude.{
  Bool, true, false, ◌||◌, Option, none, some, List, [], ◌∷◌, String, str_eq, ℤ, pos, ◌+ℤ◌, ◌-ℤ◌,
  leb_ℤ, ltb_ℤ, if◌then◌else◌,
}
use claude_code_and_vive_cod.Dict.{Dict, lookup, insert, erase, values}
use claude_code_and_vive_cod.Floats.{FloatOps}
use claude_code_and_vive_cod.Brokers.Models.{
  OrderStatus, pending, submitted, partial_filled, filled, canceled, rejected, expired, unknown,
  status_eq, Order,
}

-- `VALID_TRANSITIONS`: whether the second status is in the set of the first.
unfoldable pub valid_transition : OrderStatus → OrderStatus → Bool
valid_transition pending submitted = true
valid_transition pending rejected = true
valid_transition pending canceled = true
valid_transition submitted partial_filled = true
valid_transition submitted filled = true
valid_transition submitted canceled = true
valid_transition submitted rejected = true
valid_transition submitted expired = true
valid_transition submitted unknown = true
valid_transition partial_filled filled = true
valid_transition partial_filled canceled = true
valid_transition partial_filled expired = true
valid_transition partial_filled unknown = true
valid_transition unknown submitted = true
valid_transition unknown partial_filled = true
valid_transition unknown filled = true
valid_transition unknown canceled = true
valid_transition unknown rejected = true
valid_transition unknown expired = true
valid_transition _ _ = false

pub record FillEvent (F : Type 0) : Type 0 where
  pub order_id : String
  pub filled_qty : ℤ
  pub fill_price : F

-- `KeyError`, the `ValueError`s, and whatever the callback raises.
pub data MachineError : Type 0 where
  unknown_order invalid_transition not_positive overfill callback_raised : MachineError

pub data Result (A : Type 0) : Type 0 where
  ok : A → Result A
  err : MachineError → Result A

-- The statuses that `active_orders` keeps.
abbrev pub is_open : OrderStatus → Bool
is_open pending = true
is_open submitted = true
is_open partial_filled = true
is_open unknown = true
is_open _ = false

open_only : {F : Type 0} → List (Order F) → List (Order F)
open_only [] = []
open_only (o ∷ os) = if is_open o.status then o ∷ open_only os else open_only os

pub record Machine (F W : Type 0) : Type 0 where
  pub orders : Dict (Order F)
  pub world : W

module _ {F W : Type 0} where
  -- `_orders.get`
  unfoldable pub get : Machine F W → String → Option (Order F)
  get m order_id = lookup order_id m.orders

  abbrev pub write : Machine F W → String → Order F → Machine F W
  write m key order = record m { orders = insert key order m.orders }

  -- The order takes the broker's id and moves to that key; the empty id is falsy.
  rekey : String → String → Order F → Machine F W → Machine F W
  rekey order_id broker_order_id order m =
      let moved = write m broker_order_id (record order { id = broker_order_id }) in
      if str_eq order_id broker_order_id
      then moved
      else record moved { orders = erase order_id moved.orders }

  unfoldable pub active_orders : Machine F W → List (Order F)
  unfolding open_only values
  active_orders m = open_only (values m.orders)

module _ {F W : Type 0} (on_change : Order F → W → Bool × W) where
  unfoldable pub register : Order F → Machine F W → Result (Order F) × Machine F W
  register order m =
      let stored = write m order.id order in
      let (returned, world) = on_change order m.world in
      if returned
      then (ok order, record stored { world = world })
      else (err callback_raised, record { orders = erase order.id stored.orders; world = world })

  -- The part of `transition` after the checks: write, call back, and undo if that raises.
  unfoldable pub commit_status :
      String → Order F → OrderStatus → Machine F W → Result (Order F) × Machine F W
  commit_status order_id order new_status m =
      let order' = record order { status = new_status } in
      let moved = write m order_id order' in
      let (returned, world) = on_change order' m.world in
      if returned then (ok order', record moved { world = world }) else (
        err callback_raised,
        record (write moved order_id (record order' { status = order.status })) { world = world },
      )

  unfoldable pub transition_found :
      String → OrderStatus → Option (Order F) → Machine F W → Result (Order F) × Machine F W
  transition_found order_id new_status none m = (err unknown_order, m)
  transition_found order_id new_status (some order) m =
      if valid_transition order.status new_status
      then commit_status order_id order new_status m
      else (err invalid_transition, m)

  unfoldable pub transition : String → OrderStatus → Machine F W → Result (Order F) × Machine F W
  unfolding transition_found
  transition order_id new_status m = transition_found order_id new_status (get m order_id) m

  unfoldable pub cancel : String → Machine F W → Result (Order F) × Machine F W
  cancel order_id = transition order_id canceled

  unfoldable pub reject : String → Machine F W → Result (Order F) × Machine F W
  reject order_id = transition order_id rejected

  submit_found : String → String → Option (Order F) → Machine F W → Result (Order F) × Machine F W
  unfolding rekey
  submit_found order_id broker_order_id none m = (err unknown_order, m)
  submit_found order_id broker_order_id (some order) m =
      if str_eq broker_order_id ""
      then transition order_id submitted m
      else transition broker_order_id submitted (rekey order_id broker_order_id order m)

  unfoldable pub submit : String → String → Machine F W → Result (Order F) × Machine F W
  unfolding submit_found
  submit order_id broker_order_id m = submit_found order_id broker_order_id (get m order_id) m

module _ {F : Type 0} ⦃fl : FloatOps F⦄ where
  -- The quantity and the weighted average after a fill.
  unfoldable pub fill_order : FillEvent F → Order F → Order F
  fill_order event order =
      let total = order.filled_qty +ℤ event.filled_qty in
      let value =
        fl.add (fl.mul order.avg_fill_price (fl.of_int (total -ℤ event.filled_qty)))
          (fl.mul event.fill_price (fl.of_int event.filled_qty)) in
      record order {
        filled_qty = total;
        avg_fill_price =
            if ltb_ℤ (pos 0) total then fl.div value (fl.of_int total) else order.avg_fill_price;
      }

unfoldable pub status_after_fill : {F : Type 0} → Order F → OrderStatus
status_after_fill order =
    if leb_ℤ order.qty order.filled_qty
    then filled
    else if ltb_ℤ (pos 0) order.filled_qty
    then partial_filled
    else order.status

module _ {F W : Type 0} ⦃fl : FloatOps F⦄ (on_change : Order F → W → Bool × W) where
  -- After the quantity is written: the transition check, then the callback, with no undo.
  unfoldable pub settle_fill : String → Order F → Machine F W → Result (Order F) × Machine F W
  settle_fill order_id order m =
      let new_status = status_after_fill order in
      let order' = record order { status = new_status } in
      if status_eq new_status order.status || valid_transition order.status new_status
      then (let (returned, world) = on_change order' m.world in
          (
            if returned then ok order' else err callback_raised,
            record (write m order_id order') { world = world },
          ))
      else (err invalid_transition, write m order_id order)

  fill_found : FillEvent F → Option (Order F) → Machine F W → Result (Order F) × Machine F W
  fill_found event none m = (err unknown_order, m)
  fill_found event (some order) m =
      if leb_ℤ event.filled_qty (pos 0)
      then (err not_positive, m)
      else if ltb_ℤ order.qty (order.filled_qty +ℤ event.filled_qty)
      then (err overfill, m)
      else settle_fill event.order_id (fill_order event order) m

  unfoldable pub process_fill : FillEvent F → Machine F W → Result (Order F) × Machine F W
  unfolding fill_found
  process_fill event m = fill_found event (get m event.order_id) m
