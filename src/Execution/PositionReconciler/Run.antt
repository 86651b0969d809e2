-- ===== src/Execution/PositionReconciler/Run.antt =====
-- `reconcile` of backend/execution/reconciler.py: the lock, the two passes, the log and the alert.
-- The commit of the position pass may fail; the other database calls succeed.
use claude_code_and_vive_cod.Prelude.{
  ℕ, Bool, true, false, not, ◌&&◌, ◌||◌, ℤ, List, [], ◌∷◌, ◌++◌, String, length, if◌then◌else◌,
}
use claude_code_and_vive_cod.Dict.{Dict, insert}
use claude_code_and_vive_cod.Brokers.Models.{Position}
use claude_code_and_vive_cod.Execution.PositionReconciler.{
  PosRow, Gap, Repair, Setup, Session, broker_unimplemented,
}
use claude_code_and_vive_cod.Execution.PositionReconciler.Positions.{compare_positions}
use claude_code_and_vive_cod.Execution.PositionReconciler.OrderPass.{
  Book, ErrorKind, OrderSession, OrderSetup, already_running, positions_lookup, positions_aborted,
  pass_raised, reconcile_pending_orders,
}

-- What `get_positions` did: positions, `NotImplementedError`, or another exception.
pub data Fetch (F : Type 0) : Type 0 where
  listed : List (Position F) → Fetch F
  unimplemented failed : Fetch F

pub record Result : Type 0 where
  pub gaps : List Gap
  pub repairs : List Repair
  pub errors : List ErrorKind

-- A row of the reconciliation log.
pub record LogRow : Type 0 where
  pub gaps_found : ℕ
  pub repairs_made : ℕ
  pub has_error : Bool
  pub dry_run : Bool

pub data AlertLevel : Type 0 where
  warning error : AlertLevel

-- What the reconciler reads and writes; every list has the latest first.
pub record World (F C : Type 0) : Type 0 where
  pub is_busy : Bool
  pub positions : Dict (PosRow F)
  pub book : Book F
  pub cancels : List (String × ℤ)
  pub recorded : List C
  pub applied : List C
  pub logs : List LogRow
  pub alerts : List AlertLevel

abbrev pub is_nil {ℓ} : {A : Type ℓ} → List A → Bool
is_nil [] = true
is_nil (x ∷ xs) = false

-- A run's parts: the two passes' setups, whose own `dry_run` is not read, the snapshot that the position pass reads, and whether its
-- commit goes through.
pub record Run (F C : Type 0) : Type 0 where
  pub dry_run : Bool
  pub position_setup : Setup F C
  pub order_setup : OrderSetup F
  pub fetch : Fetch F
  pub snapshot : Dict (PosRow F)
  pub commits : Bool

-- `{p.symbol: p for p in positions}`
unfoldable pub by_symbol : {F : Type 0} → Dict (Position F) → List (Position F) → Dict (Position F)
by_symbol d [] = d
by_symbol d (p ∷ ps) = by_symbol (insert p.symbol p d) ps

abbrev pub order_result : {F : Type 0} → OrderSession F → Result
order_result s = record { gaps = s.gaps; repairs = s.repairs; errors = s.errors }

abbrev pub aborted : Result
aborted = record { gaps = []; repairs = []; errors = positions_aborted ∷ positions_lookup ∷ [] }

abbrev pub skipped : Result
skipped = record { gaps = []; repairs = []; errors = already_running ∷ [] }

module _ {F C : Type 0} where
  -- One `dry_run` for both passes.
  abbrev pub setup_of : Run F C → Setup F C
  setup_of x = record x.position_setup { dry_run = x.dry_run }

  abbrev pub order_setup_of : Run F C → OrderSetup F
  order_setup_of x = record x.order_setup { dry_run = x.dry_run }

  -- `_persist_log`
  unfoldable pub persist_log : Bool → Result → World F C → World F C
  persist_log dry_run r w = record w {
    logs =
        record {
          gaps_found = length r.gaps;
          repairs_made = length r.repairs;
          has_error = not (is_nil r.errors);
          dry_run = dry_run;
        }
        ∷ w.logs;
  }

  -- `_publish_ws`
  unfoldable pub publish_ws : Result → World F C → World F C
  publish_ws r w =
      if is_nil r.gaps && is_nil r.errors
      then w
      else record w { alerts = (if is_nil r.errors then warning else error) ∷ w.alerts }

  -- The transaction's rows become the table's, and only then are the confirmed actions applied. A
  -- dry pass has no commit.
  unfoldable pub commit_positions : Run F C → Session F C → World F C → World F C
  commit_positions x s w =
      let noted : World F C = record w { recorded = s.recorded } in
      if x.dry_run
      then noted
      else if x.commits
      then record noted { positions = s.table; applied = s.confirmed ++ w.applied }
      else noted

  abbrev pub with_orders : OrderSession F → World F C → World F C
  with_orders s w = record w { book = s.book; cancels = s.cancels }

  -- The order pass, which an exception of the position pass leaves out.
  unfoldable pub order_part :
      Run F C → Bool → List Gap → List Repair → World F C → World F C × Result
  order_part x false gaps repairs w =
      (w, record { gaps = gaps; repairs = repairs; errors = pass_raised ∷ [] })
  order_part x true gaps repairs w =
      let start : OrderSession F = record {
        book = w.book;
        gaps = gaps;
        repairs = repairs;
        errors = [];
        cancels = w.cancels;
      } in
      let s = reconcile_pending_orders (order_setup_of x) start in (with_orders s w, order_result s)

  unfoldable pub start_session : Run F C → List Gap → World F C → Session F C
  start_session x gaps w = record {
    table = w.positions;
    gaps = gaps;
    repairs = [];
    recorded = w.recorded;
    confirmed = [];
  }

  unfoldable pub run_passes :
      Run F C → Dict (Position F) → List Gap → World F C → World F C × Result
  run_passes x broker gaps w =
      let s = compare_positions (setup_of x) x.snapshot broker (start_session x gaps w) in
      order_part x (x.dry_run || x.commits) s.gaps s.repairs (commit_positions x s w)

  abbrev pub finish : Run F C → World F C × Result → World F C × Result
  finish x (w, r) = (publish_ws r (persist_log x.dry_run r w), r)

  -- The body of the outer `try`. A failed lookup writes its log before it returns, and then the
  -- `finally` writes it again.
  unfoldable pub run_fetched : Run F C → Fetch F → World F C → World F C × Result
  run_fetched x (listed ps) w = finish x (run_passes x (by_symbol [] ps) [] w)
  run_fetched x unimplemented w =
      finish x (run_passes x [] (record { kind = broker_unimplemented; symbol = "" } ∷ []) w)
  run_fetched x failed w = finish x (persist_log x.dry_run aborted w, aborted)

  unfoldable pub reconcile : Run F C → World F C → World F C × Result
  reconcile x w = if w.is_busy then (w, skipped) else run_fetched x x.fetch w
