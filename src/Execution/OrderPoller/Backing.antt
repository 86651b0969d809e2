-- ===== src/Execution/OrderPoller/Backing.antt =====
-- Which events of the poller follow an answered lookup.
use claude_code_and_vive_cod.Prelude.{
  ◌≡◌, refl, inl, inr, Bool, true, false, none, some, List, [], ◌∷◌, ◌++◌, String, arith, All,
  if◌then◌else◌, Bool-cases,
}
use claude_code_and_vive_cod.Brokers.Models.{
  OrderStatus, pending, submitted, partial_filled, filled, canceled, rejected, expired, unknown,
  Order,
}
use claude_code_and_vive_cod.Execution.OrderPoller.Health.{Clock}
use claude_code_and_vive_cod.Execution.OrderPoller.Entry.{
  PollEntry, Poller, Event, AuditKind, reported, lost, terminal, timed_out, cancel_requested,
  audited, circuit_opened, circuit_closed, Applied, apply_entry, deliver, on_filled_status,
  on_partial_status, on_terminal_status, by_status, effect, pop, write_back,
}
use claude_code_and_vive_cod.Execution.OrderPoller.Loop.{
  Reply, raises, answers, Visit, is_over, note_failure, note_success, by_reply, poll_one,
  report_timeout_deferred, handle_timeout,
}

-- The broker answered a lookup in this tick.
abbrev pub Answered : {P : Type 0} → Reply P → Type 0
Answered raises = ⊥
Answered (answers o) = Unit

module _ {P : Type 0} (broker : String → Visit P) where
  -- An `on_timeout` call, and a request to cancel, follow an answered lookup of that order, and it
  -- is not in a terminal status.
  abbrev pub Backed : Event P → Type 0
  Backed (timed_out o) = Answered (broker o.id).reply × (is_over o.status ≡ false)
  Backed (cancel_requested o) = Answered (broker o.id).reply × (is_over o.status ≡ false)
  Backed (reported o) = Unit
  Backed (lost o) = Unit
  Backed (terminal o) = Unit
  Backed (audited k o) = Unit
  Backed (circuit_opened n) = Unit
  Backed (circuit_closed n) = Unit

  All-append : (xs ys : List (Event P)) → All Backed xs → All Backed ys → All Backed (xs ++ ys)
  All-append [] ys a b = b
  All-append (x ∷ xs) ys (p, a) b = (p, All-append xs ys a b)

  terminal_events :
      (o : Order P) (k : AuditKind) (b : Bool)
      → All Backed (if b then terminal o ∷ audited k o ∷ [] else audited k o ∷ [])
  terminal_events o k true = (tt, (tt, tt))
  terminal_events o k false = (tt, tt)

  module _ (c : Clock) (o : Order P) (returns : Bool) where
    filled-Backed : (e : PollEntry P) → All Backed (on_filled_status c o returns e).events
    unfolding on_filled_status deliver
    filled-Backed e = ground arith

    partial-Backed : (e : PollEntry P) → All Backed (on_partial_status c o returns e).events
    unfolding on_partial_status deliver
    partial-Backed e = ground arith

    terminal-Backed : (e : PollEntry P) → All Backed (on_terminal_status c o e).events
    unfolding on_terminal_status
    terminal-Backed e = ground arith

    status-Backed :
        (s : OrderStatus) (e : PollEntry P) → All Backed (by_status c o s returns e).events
    unfolding by_status
    status-Backed filled e = filled-Backed e
    status-Backed canceled e = terminal-Backed e
    status-Backed rejected e = terminal-Backed e
    status-Backed expired e = terminal-Backed e
    status-Backed partial_filled e = partial-Backed e
    status-Backed pending e = tt
    status-Backed submitted e = tt
    status-Backed unknown e = tt

    apply_entry-Backed : (e : PollEntry P) → All Backed (apply_entry c o returns e).events
    unfolding apply_entry
    apply_entry-Backed e = status-Backed o.status (record e { order = o })

  pop-events : (id : String) (s : Poller P) → (pop id s).events ≡ s.events
  unfolding pop
  pop-events id s = refl

  write_back-events :
      (key : String) (e : PollEntry P) (s : Poller P) → (write_back key e s).events ≡ s.events
  unfolding write_back
  write_back-events key e s = ground arith

  effect-Backed :
      (key : String) (o : Order P) (a : Applied P) (s : Poller P)
      → All Backed a.events
      → All Backed s.events
      → All Backed (effect key o a s).events
  unfolding effect pop
  effect-Backed key o a s h g =
      let w : All Backed (a.events ++ (write_back key a.entry s).events) =
        rw (write_back-events key a.entry s) (All-append a.events s.events h g) in
      elim (Bool-cases a.popped) [ inl p ↦ rw p w | inr p ↦ rw p w ]

  failure-Backed :
      (c : Clock) (pr : Bool) (s : Poller P)
      → All Backed s.events
      → All Backed (note_failure c pr s).events
  unfolding note_failure
  failure-Backed c pr s h = ground arith

  success-Backed :
      (c : Clock) (s : Poller P) → All Backed s.events → All Backed (note_success c s).events
  unfolding note_success
  success-Backed c s h = ground arith

  by_reply-Backed :
      (key : String) (e : PollEntry P) (pr : Bool) (v : Visit P) (r : Reply P) (s : Poller P)
      → All Backed s.events
      → All Backed (by_reply key e pr v r s).poller.events
  unfolding by_reply
  by_reply-Backed key e pr v raises s h =
      rw (write_back-events key (by_reply key e pr v raises s).entry (note_failure v.clock pr s))
        (failure-Backed v.clock pr s h)
  by_reply-Backed key e pr v (answers none) s h =
      rw
        (write_back-events key (by_reply key e pr v (answers none) s).entry
          (note_success v.clock s))
        (success-Backed v.clock s h)
  by_reply-Backed key e pr v (answers (some o)) s h =
      effect-Backed key o (apply_entry v.clock o v.returns e) (note_success v.clock s)
        (apply_entry-Backed v.clock o v.returns e) (success-Backed v.clock s h)

  pub looked_up-Answered :
      (key : String) (e : PollEntry P) (pr : Bool) (v : Visit P) (r : Reply P) (s : Poller P)
      → (by_reply key e pr v r s).looked_up ≡ true
      → Answered r
  unfolding by_reply
  looked_up-Answered key e pr v raises s h = cc
  looked_up-Answered key e pr v (answers none) s h = tt
  looked_up-Answered key e pr v (answers (some o)) s h = tt

  pub poll_one-Backed :
      (key : String) (e : PollEntry P) (pr : Bool) (v : Visit P) (s : Poller P)
      → All Backed s.events
      → All Backed (poll_one key e pr v s).poller.events
  unfolding poll_one
  poll_one-Backed key e pr v s h = by_reply-Backed key e pr v v.reply s h

  pub deferred-Backed :
      (key : String) (e : PollEntry P) (s : Poller P)
      → All Backed s.events
      → All Backed (report_timeout_deferred key e s).events
  unfolding report_timeout_deferred
  deferred-Backed key e s h = elim (Bool-cases e.timeout_deferred_reported) [
    | inl old ↦ rw old h
    | inr new ↦ rw new (tt, simp (write_back-events) h)
  ]

  pub timeout-Backed :
      (has_mapper : Bool) (e : PollEntry P) (s : Poller P)
      → Answered (broker e.order.id).reply
      → All Backed s.events
      → All Backed (handle_timeout has_mapper e s).events
  unfolding handle_timeout pop
  timeout-Backed has_mapper e s a h = elim (Bool-cases (is_over e.order.status)) [
    | inl over ↦ rw over h
    | inr still ↦ elim (Bool-cases has_mapper) [
      | inl m ↦ rw (still, m) ((a, still), (tt, ((a, still), h)))
      | inr m ↦ rw (still, m) ((a, still), (tt, h))
    ]
  ]
