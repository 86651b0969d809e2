-- ===== src/Execution/OrderPoller/Timeouts.antt =====
-- The timeouts and cancel requests of a tick, and the lookups of that tick.
use claude_code_and_vive_cod.Prelude.{
  ◌≡◌, sym, eq_iff, inl, inr, ℕ, Bool, true, false, [], ◌∷◌, String, arith, All, Bool-cases,
}
use claude_code_and_vive_cod.Dict.{Dict}
use claude_code_and_vive_cod.Execution.OrderPoller.Health.{
  CircuitState, closed, open_circuit, probe, circuit_state, is_circuit_open, set_pending_count,
}
use claude_code_and_vive_cod.Execution.OrderPoller.Entry.{
  PollEntry, Poller, is_timed_out, length_of,
}
use claude_code_and_vive_cod.Execution.OrderPoller.Loop.{
  Visit, poll_one, still_open, visit, current, visit_all, due_entries, probe_earliest, earliest,
  poll_by_state, poll_due,
}
use mathlib.Core.Path.{subst}
use claude_code_and_vive_cod.Execution.OrderPoller.Backing.{
  Answered, Backed, looked_up-Answered, poll_one-Backed, deferred-Backed, timeout-Backed,
}

module _ {P : Type 0} (broker : String → Visit P) where
  still_open-id :
      (key : String) (e : PollEntry P) (s : Poller P) → still_open key e s ≡ true → e.order.id ≡ key
  unfolding still_open
  still_open-id key e s h = ground (arith, eq_iff e.order.id key)

  visit-Backed :
      (has_mapper : Bool) (key : String) (e : PollEntry P) (s : Poller P)
      → All (Backed broker) s.events
      → All (Backed broker) (visit has_mapper key e (broker key) s).events
  unfolding visit poll_one
  visit-Backed has_mapper key e s h =
      let p = poll_one key e false (broker key) s in
      let b = poll_one-Backed broker key e false (broker key) s h in
      elim (Bool-cases (is_timed_out (broker key).clock e)) [
        | inl old ↦ elim (Bool-cases p.looked_up) [
          | inl read ↦ elim (Bool-cases (still_open key p.entry p.poller)) [
            | inl left ↦
                rw (old, read, left)
                  (timeout-Backed broker has_mapper p.entry p.poller
                    (subst (λ k. Answered (broker k).reply)
                      (sym (still_open-id key p.entry p.poller left))
                      (looked_up-Answered broker key e false (broker key) (broker key).reply s
                        read))
                    b)
            | inr gone ↦ rw (old, read, gone) b
          ]
          | inr blind ↦ rw (old, blind) (deferred-Backed broker key p.entry p.poller b)
        ]
        | inr young ↦ rw young b
      ]

  visit_all-Backed :
      (has_mapper : Bool) (due : Dict (PollEntry P)) (s : Poller P)
      → All (Backed broker) s.events
      → All (Backed broker) (visit_all has_mapper broker due s).events
  unfolding visit_all
  visit_all-Backed has_mapper [] s h = h
  visit_all-Backed has_mapper ((key, e) ∷ due) s h = elim (Bool-cases (is_circuit_open s.monitor)) [
    | inl stop ↦ rw stop h
    | inr go ↦ rw go (
        visit_all-Backed has_mapper due (visit has_mapper key (current key e s) (broker key) s)
          (visit-Backed has_mapper key (current key e s) s h))
  ]

  probe-Backed :
      (d : Dict (PollEntry P)) (s : Poller P)
      → All (Backed broker) s.events
      → All (Backed broker) (probe_earliest broker d s).events
  unfolding probe_earliest
  probe-Backed [] s h = h
  probe-Backed (first ∷ d) s h =
      let key = (earliest first d).0 in
      poll_one-Backed broker key (earliest first d).1 true (broker key) s h

  state-Backed :
      (has_mapper : Bool) (now : ℕ) (c : CircuitState) (s : Poller P)
      → All (Backed broker) s.events
      → All (Backed broker) (poll_by_state has_mapper broker now c s).events
  unfolding poll_by_state
  state-Backed has_mapper now open_circuit s h = h
  state-Backed has_mapper now probe s h = probe-Backed s.entries s h
  state-Backed has_mapper now closed s h =
      visit_all-Backed has_mapper (due_entries now s.entries) s h

  -- Whatever the broker answers or fails to answer in a tick, every on_timeout call and every
  -- cancel request of the tick is for an order whose own lookup was answered in that tick, and
  -- whose status is not terminal.
  pub poll_due-Backed :
      (has_mapper : Bool) (now : ℕ) (s : Poller P)
      → All (Backed broker) (poll_due has_mapper broker now (record s { events = [] })).events
  unfolding poll_due
  poll_due-Backed has_mapper now s =
      state-Backed has_mapper now (circuit_state now s.monitor)
        (record s { monitor = set_pending_count (length_of s.entries) s.monitor; events = [] }) tt
