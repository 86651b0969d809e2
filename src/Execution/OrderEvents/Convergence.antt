-- ===== src/Execution/OrderEvents/Convergence.antt =====
-- A terminal event of an open order, and the same event again.
use claude_code_and_vive_cod.Prelude.{
  ◌≡◌, ◌≢◌, ◌⊎◌, refl, Bool, true, false, Option, none, some, String, eq_iff, arith,
}
use claude_code_and_vive_cod.Dict.{lookup, lookup-erase_self}
use claude_code_and_vive_cod.Brokers.Models.{OrderStatus, pending, expired, Order}
use claude_code_and_vive_cod.Execution.OrderMachine.{
  Machine, ok, valid_transition, is_open, get, transition, transition_found, commit_status,
}
use claude_code_and_vive_cod.Execution.OrderMachine.Transition.{get-write}
use claude_code_and_vive_cod.Execution.PositionTracker.{Tracker, unmark_pending}
use claude_code_and_vive_cod.Execution.OrderEvents.{
  Runtime, is_terminal, is_negative, converged, event_status, event_known, event_found,
  apply_terminal_event,
}

-- An event of this status can close an order of the other one: the machine has no transition from
-- pending to expired.
abbrev pub Closes : OrderStatus → OrderStatus → Type 0
Closes status was = (status ≢ expired) ⊎ (was ≢ pending)

converged_valid :
    (status was : OrderStatus)
    → is_negative status ≡ true
    → is_open was ≡ true
    → Closes status was
    → valid_transition was (converged status was) ≡ true
unfolding valid_transition converged
converged_valid status was n o c = ground arith

converged_closed :
    (status was : OrderStatus)
    → is_negative status ≡ true
    → is_terminal (converged status was) ≡ true
unfolding converged
converged_closed status was n = ground arith

open_not_terminal : (was : OrderStatus) → is_open was ≡ true → is_terminal was ≡ false
open_not_terminal was o = ground arith

module _ {F W : Type 0} (on_change : Order F → W → Bool × W) where
  transition_done :
      (id : String) (new : OrderStatus) (m : Machine F W) (p : Order F)
      → get m id ≡ some p
      → valid_transition p.status new ≡ true
      → (on_change (record p { status = new }) m.world).0 ≡ true
      → let (r, m') = transition on_change id new m in
        (r ≡ ok (record p { status = new })) × (get m' id ≡ some (record p { status = new }))
  unfolding transition transition_found commit_status
  transition_done id new m p h v kept =
      let p' = record p { status = new } in
      rw (h, v, kept)
        (refl, ground (arith, get-write m id id p' (on_change p' m.world).1, eq_iff id id))

  -- A late event of an order that is closed changes neither the machine nor the tracker.
  late_event :
      (order : Order F) (target : Option OrderStatus) (rt : Runtime F W) (p : Order F)
      → get rt.machine order.id ≡ some p
      → is_terminal p.status ≡ true
      → let (moved, rt') = apply_terminal_event on_change order target rt in
        (moved ≡ false) × (rt'.machine ≡ rt.machine) × (rt'.tracker ≡ rt.tracker)
  unfolding apply_terminal_event event_found event_known
  late_event order target rt p h t = ground arith

  first_event :
      (order : Order F) (target : Option OrderStatus) (rt : Runtime F W) (p : Order F)
      → let status = event_status target order.status in
        let p' = record p { status = converged status p.status } in
        get rt.machine order.id ≡ some p
        → is_open p.status ≡ true
        → is_negative status ≡ true
        → Closes status p.status
        → (on_change p' rt.machine.world).0 ≡ true
        → let (moved, rt') = apply_terminal_event on_change order target rt in
          (moved ≡ true)
          × (get rt'.machine order.id ≡ some p')
          × (lookup order.symbol rt'.tracker.pending_symbols ≡ none)
  unfolding apply_terminal_event event_found event_known unmark_pending
  first_event order target rt p h o n c kept =
      let status = event_status target order.status in
      let done =
        transition_done order.id (converged status p.status) rt.machine p h
          (converged_valid status p.status n o c) kept in
      rw (h, n, open_not_terminal p.status o)
        (rw done.0 refl, done.1, lookup-erase_self order.symbol rt.tracker.pending_symbols)

  -- A canceled, rejected or expired event of an open order that it can close, whose callback
  -- returns, closes the order with the status that it converges to, and gives the symbol's lock
  -- back; the same event again, whatever the tracker is by then, changes neither the machine nor
  -- that tracker.
  pub terminal_event_once :
      (order : Order F) (target : Option OrderStatus) (rt : Runtime F W) (p : Order F)
      (later : Tracker F)
      → let status = event_status target order.status in
        let p' = record p { status = converged status p.status } in
        get rt.machine order.id ≡ some p
        → is_open p.status ≡ true
        → is_negative status ≡ true
        → Closes status p.status
        → (on_change p' rt.machine.world).0 ≡ true
        → let (moved, rt') = apply_terminal_event on_change order target rt in
          let (again, rt'') =
            apply_terminal_event on_change order target (record rt' { tracker = later }) in
          (moved ≡ true)
          × (get rt'.machine order.id ≡ some p')
          × (is_terminal p'.status ≡ true)
          × (lookup order.symbol rt'.tracker.pending_symbols ≡ none)
          × ((again ≡ false) × (rt''.machine ≡ rt'.machine) × (rt''.tracker ≡ later))
  terminal_event_once order target rt p later h o n c kept =
      let status = event_status target order.status in
      let p' = record p { status = converged status p.status } in
      let rt' = (apply_terminal_event on_change order target rt).1 in
      let (moved, there, free) = first_event order target rt p h o n c kept in
      let closed = converged_closed status p.status n in
      (
        moved,
        there,
        closed,
        free,
        late_event order target (record rt' { tracker = later }) p' there closed,
      )
