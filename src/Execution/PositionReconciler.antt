-- ===== src/Execution/PositionReconciler.antt =====
-- `PositionReconciler` of backend/execution/reconciler.py: the rows, the gaps and the pass over the
-- positions. The tables are those of the reconciler's broker, times count microseconds, and the
-- clock is read once in a pass. `snapshot` is what the pass read at its start and `table` what it
-- finds when it comes to write: whatever other writers committed in between is in `table`.
pub mod Positions
pub mod Rows
pub mod OrderPass
pub mod Run
pub mod Runs
use claude_code_and_vive_cod.Prelude.{
  ℕ, ◌+◌, ◌*◌, Bool, true, false, ◌&&◌, ◌||◌, Option, none, some, List, [], ◌∷◌, String, str_eq, ℤ,
  pos_part, neg_part, ◌-ℤ◌, ltb, leb, ◌==◌, if◌then◌else◌,
}
use claude_code_and_vive_cod.Dict.{Dict}

pub record PosRow (F : Type 0) : Type 0 where
  pub id : ℕ
  pub qty : ℤ
  pub avg_price : F
  pub market : String
  pub updated_at : Option ℕ

-- What `_has_pending_order` reads of an order row.
pub record OrderState : Type 0 where
  pub symbol : String
  pub status : String
  pub updated_at : Option ℕ

pub data GapKind : Type 0 where
  broker_unimplemented missing_in_db position_appeared qty_mismatch_pending qty_mismatch : GapKind
  qty_corporate_action qty_corporate_action_unknown position_changed : GapKind
  stale_position_pending stale_position_too_young stale_db_position : GapKind
  missing_broker_id lost_order order_status_mismatch sync_order_resync_error : GapKind
  sync_order_deferred : GapKind

pub record Gap : Type 0 where
  pub kind : GapKind
  pub symbol : String

pub data RepairKind : Type 0 where
  insert_position fix_qty fix_avg_price delete_position : RepairKind
  cancel_lost_order sync_order_runtime sync_order : RepairKind

pub record Repair : Type 0 where
  pub kind : RepairKind
  pub symbol : String

-- The corporate-action runtime's classifier, and the test of its verdict.
pub record CaRuntime (F C : Type 0) : Type 0 where
  pub classify_broker_jump : String → ℤ → F → ℤ → F → C
  pub is_confirmed : C → Bool

-- What a pass does not change. `same_price` is `==` of two doubles and `drifted` is
-- `abs(a - b) > 0.01`; `new_id` is the id that the database gives to a symbol's new row.
pub record Setup (F C : Type 0) : Type 0 where
  pub now : ℕ
  pub dry_run : Bool
  pub same_price : F → F → Bool
  pub drifted : F → F → Bool
  pub new_id : String → ℕ
  pub ca_runtime : Option (CaRuntime F C)
  pub orders : List OrderState

-- The transaction's view of the table, the result's lists, the actions that were recorded and those
-- that wait for the commit; every list has the latest first. A repair's audit row is the repair.
pub record Session (F C : Type 0) : Type 0 where
  pub table : Dict (PosRow F)
  pub gaps : List Gap
  pub repairs : List Repair
  pub recorded : List C
  pub confirmed : List C

-- `_QTY_TOLERANCE`, `_RECENT_FILL_SEC` and `_STALE_MIN_AGE_HOURS`
abbrev pub qty_tolerance : ℕ
qty_tolerance = 0

abbrev pub recent_fill : ℕ
recent_fill = 600 * 1000000

abbrev pub stale_min_age : ℕ
stale_min_age = 3600 * 1000000

abbrev pub is_open_status : String → Bool
is_open_status status =
    str_eq status "pending"
    || (str_eq status "submitted" || (str_eq status "partial_filled" || str_eq status "unknown"))

-- `updated_at >= utcnow() - _RECENT_FILL_SEC`; a null is no match.
abbrev is_recent : ℕ → Option ℕ → Bool
is_recent now none = false
is_recent now (some t) = leb now (t + recent_fill)

unfoldable pub moves_position : ℕ → String → OrderState → Bool
moves_position now symbol o =
    str_eq o.symbol symbol
    && (is_open_status o.status || (str_eq o.status "filled" && is_recent now o.updated_at))

unfoldable pub has_pending_order : ℕ → String → List OrderState → Bool
has_pending_order now symbol [] = false
has_pending_order now symbol (o ∷ os) =
    moves_position now symbol o || has_pending_order now symbol os

-- `age_hours < _STALE_MIN_AGE_HOURS`; a row that has no time counts as new.
abbrev pub is_too_young : ℕ → Option ℕ → Bool
is_too_young now none = true
is_too_young now (some t) = ltb now (t + stale_min_age)

-- `abs(a - b)`
abbrev pub distance : ℤ → ℤ → ℕ
distance a b = pos_part (a -ℤ b) + neg_part (a -ℤ b)

abbrev pub same_time : Option ℕ → Option ℕ → Bool
same_time none none = true
same_time none (some t) = false
same_time (some t) none = false
same_time (some t) (some u) = t == u

-- `_superseded` takes the latest gap of the symbol off.
unfoldable pub drop_gap : String → List Gap → List Gap
drop_gap symbol [] = []
drop_gap symbol (g ∷ gs) =
    let rest = drop_gap symbol gs in if str_eq g.symbol symbol then gs else g ∷ rest
