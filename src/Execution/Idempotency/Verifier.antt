-- ===== src/Execution/Idempotency/Verifier.antt =====
-- `DuplicateDetector` and `RecoveryVerifier` of backend/execution/idempotency.py. Each call to the
-- store has its own time and its own backends that answer.
pub mod Justified
use claude_code_and_vive_cod.Prelude.{
  ℕ, Bool, true, false, ◌||◌, Option, none, some, [], if◌then◌else◌,
}
use claude_code_and_vive_cod.Text.{Text, codes, text_eq}
use claude_code_and_vive_cod.Brokers.Models.{
  Order, OrderStatus, filled, canceled, rejected, expired, status_eq,
}
use claude_code_and_vive_cod.Execution.PositionReconciler.OrderPass.{
  Lookup, found, absent, unsupported, raised, status_text,
}
use claude_code_and_vive_cod.Execution.Idempotency.{
  Backends, Store, ExecutionRecord, get, set, acquire_lock, release_lock,
}

pub record DuplicateResult : Type 0 where
  pub is_duplicate : Bool
  pub fingerprint : Text
  pub order_id : Text
  pub status : Text

abbrev duplicate_of : Text → Option ExecutionRecord → DuplicateResult
duplicate_of fp none = record { is_duplicate = false; fingerprint = fp; order_id = []; status = [] }
duplicate_of fp (some r) = record {
  is_duplicate = true;
  fingerprint = fp;
  order_id = r.order_id;
  status = r.status;
}

unfoldable pub check : Backends → Text → Store → DuplicateResult
check b fp s = duplicate_of fp (get b fp s)

unfoldable pub mark_executing : ℕ → Backends → Text → Text → Store → Store
mark_executing ttl b fp order_id s = set ttl b fp order_id (codes "executing") s

unfoldable pub mark_completed : ℕ → Backends → Text → Text → Text → Store → Store
mark_completed ttl b fp order_id status s = set ttl b fp order_id status s

abbrev pub leave : Backends → Text → Bool → Store → Store
leave b fp acquired s = if acquired then release_lock b fp s else s

-- `execution_lock` round a body that is told whether it has the lock; a body that raises leaves by
-- the same way.
unfoldable pub with_execution_lock :
    {A : Type 0} → Backends → Backends → Text → ℕ → (Bool → Store → A × Store) → Store → A × Store
with_execution_lock enter exit fp ttl body s =
    let (acquired, held) = acquire_lock enter fp ttl s in
    let (a, done) = body acquired held in (a, leave exit fp acquired done)

pub data RecoveryOutcome : Type 0 where
  not_found in_flight completed unknown_outcome : RecoveryOutcome

pub record VerificationResult : Type 0 where
  pub outcome : RecoveryOutcome
  pub order_id : Text
  pub status : Text

-- `_TERMINAL_STATUSES`
unfoldable pub is_terminal_status : OrderStatus → Bool
is_terminal_status s =
    status_eq s filled || (status_eq s canceled || (status_eq s rejected || status_eq s expired))

abbrev outcome : RecoveryOutcome → Text → Text → VerificationResult
outcome o order_id status = record { outcome = o; order_id = order_id; status = status }

-- The record that settles the matter without the broker.
unfoldable pub settled_record : Option ExecutionRecord → Option ExecutionRecord
settled_record none = none
settled_record (some r) = if text_eq r.status (codes "executing") then none else some r

abbrev broker_status : {F : Type 0} → Order F → Text
broker_status order = codes (status_text order.status)

unfoldable pub ask_broker :
    {F : Type 0} → ℕ → Backends → Text → Text → Lookup F → Store → VerificationResult × Store
ask_broker ttl b fp order_id unsupported s = (outcome unknown_outcome order_id [], s)
ask_broker ttl b fp order_id raised s = (outcome unknown_outcome order_id [], s)
ask_broker ttl b fp order_id absent s = (outcome not_found [] [], s)
ask_broker ttl b fp order_id (found order) s =
    if is_terminal_status order.status
    then (
      outcome completed order_id (broker_status order),
      mark_completed ttl b fp order_id (broker_status order) s,
    )
    else (outcome in_flight order_id (broker_status order), s)

abbrev by_record :
    Option ExecutionRecord → VerificationResult × Store → Store → VerificationResult × Store
by_record none asked s = asked
by_record (some r) asked s = (outcome completed r.order_id r.status, s)

unfoldable pub verify :
    {F : Type 0}
    → ℕ
    → Backends
    → Backends
    → Text
    → Text
    → Lookup F
    → Store
    → VerificationResult × Store
verify ttl reading writing fp order_id answer s =
    by_record (settled_record (get reading fp s)) (ask_broker ttl writing fp order_id answer s) s
