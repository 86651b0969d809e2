-- ===== src/Execution/OrderPoller/Loop.antt =====
-- `register`, `unregister`, `resync` and the tick `_poll_due`. What the broker answers for an entry
-- in a tick, and when, is a `Visit` for each key. A callback of one entry does not call the
-- poller, and `_default_timeout_handler` only logs.
use claude_code_and_vive_cod.Prelude.{
  ℕ, Bool, true, false, ◌&&◌, Option, none, some, [], ◌∷◌, String, str_eq, ℤ, ltb, leb, max_ℤ,
  is_some, if◌then◌else◌,
}
use claude_code_and_vive_cod.Dict.{Dict, lookup, insert}
use claude_code_and_vive_cod.Brokers.Models.{
  OrderStatus, pending, submitted, partial_filled, filled, canceled, rejected, expired, unknown,
  Order,
}
use claude_code_and_vive_cod.Execution.OrderPoller.Health.{
  Clock, CircuitState, closed, open_circuit, probe, record_register, record_timeout,
  record_poll_success, record_poll_error, record_probe_failure, circuit_state, is_circuit_open,
  set_pending_count,
}
use claude_code_and_vive_cod.Execution.OrderPoller.Entry.{
  PollEntry, Poller, register_row, timeout_deferred_row, timeout_row, audited, timed_out,
  cancel_requested, circuit_opened, circuit_closed, is_timed_out, advance, length_of, pop,
  write_back, emit, apply_entry, apply_update, effect,
}

-- `get_order_status` raises, or gives an order or `None`.
pub data Reply (P : Type 0) : Type 0 where
  raises : Reply P
  answers : Option (Order P) → Reply P

pub record Visit (P : Type 0) : Type 0 where
  pub clock : Clock
  pub reply : Reply P
  pub returns : Bool

-- Which optional callbacks `register` was given.
pub record Callbacks : Type 0 where
  pub on_canceled : Bool
  pub on_rejected : Bool
  pub on_expired : Bool

abbrev pub is_over : OrderStatus → Bool
is_over filled = true
is_over canceled = true
is_over rejected = true
is_over expired = true
is_over pending = false
is_over submitted = false
is_over partial_filled = false
is_over unknown = false

module _ {P : Type 0} where
  unfoldable pub new_entry : Clock → Order P → Callbacks → ℤ → PollEntry P
  new_entry c order cb initial = record {
    order = order;
    has_canceled = cb.on_canceled;
    has_rejected = cb.on_rejected;
    has_expired = cb.on_expired;
    registered_at = c.wall;
    poll_index = 0;
    next_poll_at = c.monotonic;
    last_reported_qty = initial;
    terminal_fired = false;
    timeout_deferred_reported = false;
  }

  -- The entry that is tracked already is mutated, and its watermark is not lowered.
  unfoldable pub re_register : Order P → Callbacks → ℤ → PollEntry P → PollEntry P
  re_register order cb initial e = record e {
    order = order;
    has_canceled = cb.on_canceled;
    has_rejected = cb.on_rejected;
    has_expired = cb.on_expired;
    last_reported_qty = max_ℤ e.last_reported_qty initial;
  }

  unfoldable pub entry_for : Clock → Order P → Callbacks → ℤ → Option (PollEntry P) → PollEntry P
  entry_for c order cb initial none = new_entry c order cb initial
  entry_for c order cb initial (some e) = re_register order cb initial e

  unfoldable pub register : Clock → Order P → Callbacks → ℤ → Poller P → Poller P
  register c order cb initial s =
      let tracked =
        insert order.id (entry_for c order cb initial (lookup order.id s.entries)) s.entries in
      if str_eq order.id ""
      then s
      else emit (audited register_row order) (record s {
        entries = tracked;
        monitor = record_register (set_pending_count (length_of tracked) s.monitor);
      })

  unfoldable pub resync_found :
      Clock → Order P → Bool → Option (PollEntry P) → Poller P → (Bool × Bool) × Poller P
  resync_found c order returns none s = ((false, false), s)
  resync_found c order returns (some e) s =
      let (applied, s') = apply_update order.id c order returns e s in ((true, applied), s')

  -- The result is `(owned, applied)`.
  unfoldable pub resync : Clock → Order P → Bool → Poller P → (Bool × Bool) × Poller P
  resync c order returns s = resync_found c order returns (lookup order.id s.entries) s

-- A poll of one entry: whether its lookup succeeded, the entry object after it, and the poller.
pub record Polled (P : Type 0) : Type 0 where
  pub looked_up : Bool
  pub entry : PollEntry P
  pub poller : Poller P

module _ {P : Type 0} where
  -- The circuit alerts are shown as events.
  unfoldable pub note_failure : Clock → Bool → Poller P → Poller P
  note_failure c probing s =
      let (opened, m) = record_poll_error c s.monitor in
      if probing then record s { monitor = record_probe_failure c s.monitor } else elim opened [
        | none ↦ record s { monitor = m }
        | some alert ↦ emit (circuit_opened alert) (record s { monitor = m })
      ]

  unfoldable pub note_success : Clock → Poller P → Poller P
  note_success c s =
      let (down, m) = record_poll_success c s.monitor in
      elim down [
        | none ↦ record s { monitor = m }
        | some t ↦ emit (circuit_closed t) (record s { monitor = m })
      ]

  unfoldable pub by_reply : String → PollEntry P → Bool → Visit P → Reply P → Poller P → Polled P
  by_reply key e probing v raises s =
      let e' = advance v.clock e in
      record {
        looked_up = false;
        entry = e';
        poller = write_back key e' (note_failure v.clock probing s);
      }
  by_reply key e probing v (answers none) s =
      let e' = advance v.clock e in
      record { looked_up = true; entry = e'; poller = write_back key e' (note_success v.clock s) }
  by_reply key e probing v (answers (some updated)) s =
      let a = apply_entry v.clock updated v.returns e in
      record {
        looked_up = true;
        entry = a.entry;
        poller = effect key updated a (note_success v.clock s);
      }

  unfoldable pub poll_one : String → PollEntry P → Bool → Visit P → Poller P → Polled P
  poll_one key e probing v s = by_reply key e probing v v.reply s

  unfoldable pub report_timeout_deferred : String → PollEntry P → Poller P → Poller P
  report_timeout_deferred key e s =
      if e.timeout_deferred_reported
      then s
      else emit (audited timeout_deferred_row e.order)
          (write_back key (record e { timeout_deferred_reported = true }) s)

  -- `_handle_timeout_locked`; with a semantic mapper a cancel is attempted, and whether that
  -- raises is ignored.
  unfoldable pub handle_timeout : Bool → PollEntry P → Poller P → Poller P
  handle_timeout has_mapper e s =
      let gone = pop e.order.id s in
      let asked = if has_mapper then emit (cancel_requested e.order) gone else gone in
      if is_over e.order.status
      then s
      else emit (timed_out e.order) (
          emit (audited timeout_row e.order)
            (record asked { monitor = record_timeout asked.monitor }))

  -- The store still holds the entry object of `key` under its order's id.
  unfoldable pub still_open : String → PollEntry P → Poller P → Bool
  still_open key e s = str_eq e.order.id key && is_some (lookup key s.entries)

  unfoldable pub visit : Bool → String → PollEntry P → Visit P → Poller P → Poller P
  visit has_mapper key e v s =
      let p = poll_one key e false v s in
      if is_timed_out v.clock e
      then if p.looked_up
        then if still_open key p.entry p.poller
          then handle_timeout has_mapper p.entry p.poller
          else p.poller
        else report_timeout_deferred key p.entry p.poller
      else p.poller

  -- The entry object of `key`, as it is by now; one that was taken off the list is the snapshot's.
  abbrev pub current : String → PollEntry P → Poller P → PollEntry P
  current key e s = elim (lookup key s.entries) [ none ↦ e | some now ↦ now ]

  unfoldable pub visit_all : Bool → (String → Visit P) → Dict (PollEntry P) → Poller P → Poller P
  visit_all has_mapper broker [] s = s
  visit_all has_mapper broker ((key, e) ∷ due) s =
      let rest =
        visit_all has_mapper broker due (visit has_mapper key (current key e s) (broker key) s) in
      if is_circuit_open s.monitor then s else rest

  unfoldable pub due_entries : ℕ → Dict (PollEntry P) → Dict (PollEntry P)
  due_entries now [] = []
  due_entries now ((key, e) ∷ d) =
      let rest = due_entries now d in if leb e.next_poll_at now then (key, e) ∷ rest else rest

  -- `min(entries, key=next_poll_at)`, which gives the first of several.
  unfoldable pub earliest : String × PollEntry P → Dict (PollEntry P) → String × PollEntry P
  earliest best [] = best
  earliest best ((key, e) ∷ d) =
      let rest_new = earliest (key, e) d in
      let rest_old = earliest best d in
      if ltb e.next_poll_at best.1.next_poll_at then rest_new else rest_old

  unfoldable pub probe_earliest : (String → Visit P) → Dict (PollEntry P) → Poller P → Poller P
  probe_earliest broker [] s = s
  probe_earliest broker (first ∷ d) s =
      let (key, e) = earliest first d in (poll_one key e true (broker key) s).poller

  unfoldable pub poll_by_state : Bool → (String → Visit P) → ℕ → CircuitState → Poller P → Poller P
  poll_by_state has_mapper broker now open_circuit s = s
  poll_by_state has_mapper broker now probe s = probe_earliest broker s.entries s
  poll_by_state has_mapper broker now closed s =
      visit_all has_mapper broker (due_entries now s.entries) s

  unfoldable pub poll_due : Bool → (String → Visit P) → ℕ → Poller P → Poller P
  poll_due has_mapper broker now s =
      poll_by_state has_mapper broker now (circuit_state now s.monitor)
        (record s { monitor = set_pending_count (length_of s.entries) s.monitor })

  unfoldable pub unregister : String → Poller P → Poller P
  unregister key s = pop key s
