-- ===== src/Execution/Idempotency/Verifier/Justified.antt =====
-- What the detector and the verifier say, and on what grounds.
use claude_code_and_vive_cod.Prelude.{ℕ, ◌≡◌, refl, ◌⊎◌, true, false, Option, none, some}
use claude_code_and_vive_cod.Text.{Text, codes, text_eq}
use claude_code_and_vive_cod.Brokers.Models.{
  Order, OrderStatus, pending, submitted, partial_filled, filled, canceled, rejected, expired,
  unknown,
}
use claude_code_and_vive_cod.Execution.PositionReconciler.OrderPass.{
  Lookup, found, absent, unsupported, raised, status_text,
}
use claude_code_and_vive_cod.Execution.Idempotency.{Backends, Store, ExecutionRecord, get}
use claude_code_and_vive_cod.Execution.Idempotency.Records.{Meets, has_colon, get-set}
use claude_code_and_vive_cod.Execution.Idempotency.Verifier.{
  check, mark_executing, mark_completed, RecoveryOutcome, not_found, in_flight, completed,
  unknown_outcome, is_terminal_status, broker_status, settled_record, ask_broker, verify,
}

-- An order that was marked as executing is found to be a duplicate, with its order id and that
-- status, by a later check that meets the write at one backend: the cache answers both and the
-- entry has not expired, or the cache missed the write, the table answers both, the cache has no
-- older entry for the check, and no other fingerprint has the table's row; the order id has no
-- colon.
pub check-mark_executing :
    (ttl : ℕ) (writing reading : Backends) (fp order_id : Text) (s : Store)
    → has_colon order_id ≡ false
    → Meets ttl writing reading fp s
    → check reading fp (mark_executing ttl writing fp order_id s) ≡ record {
      is_duplicate = true;
      fingerprint = fp;
      order_id = order_id;
      status = codes "executing";
    }
unfolding check mark_executing
check-mark_executing ttl writing reading fp order_id s plain meets =
    rw (get-set ttl writing reading fp order_id (codes "executing") s plain meets) refl

-- No terminal status is spelled as the mark of an order in flight.
terminal_text :
    (s : OrderStatus)
    → is_terminal_status s ≡ true
    → text_eq (codes (status_text s)) (codes "executing") ≡ false
unfolding is_terminal_status text_eq
terminal_text pending h = cc
terminal_text submitted h = cc
terminal_text partial_filled h = cc
terminal_text filled h = refl
terminal_text canceled h = refl
terminal_text rejected h = refl
terminal_text expired h = refl
terminal_text unknown h = cc

module _ {F : Type 0} where
  -- The grounds of each outcome.
  abbrev pub Justifies : Option ExecutionRecord → Lookup F → RecoveryOutcome → Type 0
  Justifies settled answer not_found = (settled ≡ none) × (answer ≡ absent)
  Justifies settled answer unknown_outcome =
      (settled ≡ none) × ((answer ≡ unsupported) ⊎ (answer ≡ raised))
  Justifies settled answer in_flight =
      (settled ≡ none)
      × ((order : Order F) × (answer ≡ found order) × (is_terminal_status order.status ≡ false))
  Justifies settled answer completed =
      ((r : ExecutionRecord) × (settled ≡ some r))
      ⊎ ((order : Order F) × (answer ≡ found order) × (is_terminal_status order.status ≡ true))

  -- Where a verification found no settled record and a terminal status at the broker, a later one
  -- that meets its write at one backend, for an order id without a colon, gives the same result
  -- and leaves the store alone, whatever the broker answers then.
  pub verify-settles :
      (ttl : ℕ) (reading writing again writing' : Backends) (fp order_id : Text) (order : Order F)
      (answer : Lookup F) (s : Store)
      → has_colon order_id ≡ false
      → settled_record (get reading fp s) ≡ none
      → is_terminal_status order.status ≡ true
      → Meets ttl writing again fp s
      → let first = verify ttl reading writing fp order_id (found order) s in
        (verify ttl again writing' fp order_id answer first.1) ≡ (first.0, first.1)
  unfolding verify ask_broker mark_completed settled_record
  verify-settles ttl reading writing again writing' fp order_id order answer s plain fresh over
        meets =
      rw
        (
          fresh,
          over,
          get-set ttl writing again fp order_id (broker_status order) s plain meets,
          terminal_text order.status over,
        )
        refl
