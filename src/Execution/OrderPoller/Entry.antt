-- ===== src/Execution/OrderPoller/Entry.antt =====
-- `_PollEntry` and the processing core `_apply_update_locked`. What the poller shows to the
-- outside is a list of events, the latest first. A callback that may be absent is a flag.
use claude_code_and_vive_cod.Prelude.{
  ℕ, suc, zero, ◌+◌, Bool, true, false, none, some, List, [], ◌∷◌, ◌++◌, String, ℤ, pos, ◌-ℤ◌,
  ltb_ℤ, ltb, if◌then◌else◌,
}
use claude_code_and_vive_cod.Dict.{Dict, lookup, insert, erase}
use claude_code_and_vive_cod.Brokers.Models.{
  OrderStatus, partial_filled, filled, canceled, rejected, expired, Order,
}
use claude_code_and_vive_cod.Execution.OrderPoller.Health.{
  Clock, Monitor, record_fill, record_partial_fill, record_cancel, record_reject, record_expired,
  set_pending_count,
}

-- `_POLL_INTERVALS`, the last one for every later index.
abbrev pub poll_interval : ℕ → ℕ
poll_interval zero = 10
poll_interval (suc zero) = 30
poll_interval (suc (suc zero)) = 60
poll_interval (suc (suc (suc zero))) = 120
poll_interval (suc (suc (suc (suc _)))) = 300

-- Thirty minutes, in seconds.
abbrev pub timeout_seconds : ℕ
timeout_seconds = 1800

pub record PollEntry (P : Type 0) : Type 0 where
  pub order : Order P
  pub has_canceled : Bool
  pub has_rejected : Bool
  pub has_expired : Bool
  pub registered_at : ℕ
  pub poll_index : ℕ
  pub next_poll_at : ℕ
  pub last_reported_qty : ℤ
  pub terminal_fired : Bool
  pub timeout_deferred_reported : Bool

pub data AuditKind : Type 0 where
  register_row filled_row partial_row timeout_deferred_row timeout_row : AuditKind
  terminal_row : OrderStatus → AuditKind

pub data Event (P : Type 0) : Type 0 where
  -- `on_filled` was called with this copy of the order, and returned, or raised
  reported lost : Order P → Event P
  -- `on_canceled`, `on_rejected` or `on_expired` was called; what it raises is swallowed
  terminal : Order P → Event P
  -- `on_timeout` was called, and the broker was asked to cancel
  timed_out cancel_requested : Order P → Event P
  audited : AuditKind → Order P → Event P
  circuit_opened : ℕ × ℕ → Event P
  circuit_closed : ℕ → Event P

unfoldable pub is_timed_out : {P : Type 0} → Clock → PollEntry P → Bool
is_timed_out c e = ltb (e.registered_at + timeout_seconds) c.wall

unfoldable pub advance : {P : Type 0} → Clock → PollEntry P → PollEntry P
advance c e = record e {
  poll_index = e.poll_index + 1;
  next_poll_at = c.monotonic + poll_interval e.poll_index;
}

pub record Poller (P : Type 0) : Type 0 where
  pub entries : Dict (PollEntry P)
  pub monitor : Monitor
  pub events : List (Event P)

module _ {P : Type 0} where
  abbrev pub length_of : Dict (PollEntry P) → ℕ
  length_of [] = 0
  length_of (e ∷ d) = suc (length_of d)

  -- `_entries.pop(id, None)` and the pending count.
  unfoldable pub pop : String → Poller P → Poller P
  pop id s =
      let rest = erase id s.entries in
      record s { entries = rest; monitor = set_pending_count (length_of rest) s.monitor }

  -- The entry object is mutated; it is seen in the store while its key is there.
  unfoldable pub write_back : String → PollEntry P → Poller P → Poller P
  write_back key e s = elim (lookup key s.entries) [
    | none ↦ s
    | some _ ↦ record s { entries = insert key e s.entries }
  ]

  abbrev pub emit : Event P → Poller P → Poller P
  emit v s = record s { events = v ∷ s.events }

  -- The copy of the order that `on_filled` gets.
  abbrev pub increment : Order P → ℤ → Order P
  increment updated qty = record updated {
    filled_qty = qty;
    cumulative_filled_qty = some updated.filled_qty;
  }

-- Which callback a terminal status has.
abbrev pub wants_terminal : {P : Type 0} → OrderStatus → PollEntry P → Bool
wants_terminal canceled e = e.has_canceled
wants_terminal rejected e = e.has_rejected
wants_terminal expired e = e.has_expired
wants_terminal _ e = false

abbrev pub record_terminal : OrderStatus → Monitor → Monitor
record_terminal canceled m = record_cancel m
record_terminal rejected m = record_reject m
record_terminal expired m = record_expired m
record_terminal _ m = m

-- What one update does: whether it settled, the entry after it, whether the entry is taken off the
-- list, its events, the latest first, and the counter that it moves.
pub record Applied (P : Type 0) : Type 0 where
  pub settled : Bool
  pub entry : PollEntry P
  pub popped : Bool
  pub events : List (Event P)
  pub counter : Monitor → Monitor

abbrev same_counters : Monitor → Monitor
same_counters m = m

module _ {P : Type 0} (clock : Clock) (updated : Order P) where
  -- A fill that is new: `returns` says whether `on_filled` returns. A callback that raised leaves
  -- the watermark, and keeps the entry.
  unfoldable pub deliver : Bool → AuditKind → (Monitor → Monitor) → PollEntry P → ℤ → Applied P
  deliver returns row counter e incremental =
      if returns
      then record {
        settled = true;
        entry = record e { last_reported_qty = updated.filled_qty };
        popped = false;
        events = audited row updated ∷ reported (increment updated incremental) ∷ [];
        counter = counter;
      }
      else record {
        settled = false;
        entry = advance clock e;
        popped = false;
        events = lost (increment updated incremental) ∷ [];
        counter = same_counters;
      }

  abbrev quiet : PollEntry P → Bool → Applied P
  quiet e popped = record {
    settled = true;
    entry = e;
    popped = popped;
    events = [];
    counter = same_counters;
  }

  -- FILLED: the entry is taken off once the increment is settled.
  unfoldable pub on_filled_status : Bool → PollEntry P → Applied P
  on_filled_status returns e =
      let incremental = updated.filled_qty -ℤ e.last_reported_qty in
      if ltb_ℤ (pos 0) incremental
      then (let a = deliver returns filled_row record_fill e incremental in
          record a { popped = a.settled })
      else quiet e true

  -- PARTIAL_FILLED: the schedule advances in every case.
  unfoldable pub on_partial_status : Bool → PollEntry P → Applied P
  on_partial_status returns e =
      let incremental = updated.filled_qty -ℤ e.last_reported_qty in
      if ltb_ℤ (pos 0) incremental
      then (let a = deliver returns partial_row record_partial_fill e incremental in
          if returns then record a { entry = advance clock a.entry } else a)
      else quiet (advance clock e) false

  -- CANCELED, REJECTED, EXPIRED: fires once for an entry.
  unfoldable pub on_terminal_status : PollEntry P → Applied P
  on_terminal_status e =
      let row = audited (terminal_row updated.status) updated in
      if e.terminal_fired then quiet e false else record {
        settled = true;
        entry = record e { terminal_fired = true };
        popped = true;
        events = if wants_terminal updated.status e then terminal updated ∷ row ∷ [] else row ∷ [];
        counter = record_terminal updated.status;
      }

  unfoldable pub by_status : OrderStatus → Bool → PollEntry P → Applied P
  by_status filled returns e = on_filled_status returns e
  by_status canceled returns e = on_terminal_status e
  by_status rejected returns e = on_terminal_status e
  by_status expired returns e = on_terminal_status e
  by_status partial_filled returns e = on_partial_status returns e
  by_status _ returns e = quiet (advance clock e) false

  -- `_apply_update_locked`, on the entry. The check of the transition only warns.
  unfoldable pub apply_entry : Bool → PollEntry P → Applied P
  unfolding by_status
  apply_entry returns e = by_status updated.status returns (record e { order = updated })

module _ {P : Type 0} where
  -- The update's effects on the poller: the entry of `key` is mutated, its events are shown, its
  -- counter is moved, and the updated order's id is popped.
  unfoldable pub effect : String → Order P → Applied P → Poller P → Poller P
  effect key updated a s =
      let written = write_back key a.entry s in
      let shown = record written {
        events = a.events ++ written.events;
        monitor = a.counter written.monitor;
      } in
      if a.popped then pop updated.id shown else shown

  unfoldable pub apply_update :
      String → Clock → Order P → Bool → PollEntry P → Poller P → Bool × Poller P
  apply_update key clock updated returns e s =
      let a = apply_entry clock updated returns e in (a.settled, effect key updated a s)
