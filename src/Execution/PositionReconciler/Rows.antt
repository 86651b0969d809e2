-- ===== src/Execution/PositionReconciler/Rows.antt =====
-- What a pass over the positions of backend/execution/reconciler.py makes of one symbol's row, said
-- symbol by symbol.
pub mod Locked
pub mod Held
pub mod Stale
pub mod Loops
pub mod Settled
pub mod Dry
use claude_code_and_vive_cod.Prelude.{
  ◌≡◌, ◌∙◌, Bool, not, ◌&&◌, ◌||◌, Option, none, some, String, ltb, if◌then◌else◌,
}
use claude_code_and_vive_cod.Brokers.Models.{Position}
use claude_code_and_vive_cod.Execution.PositionReconciler.{
  PosRow, Setup, has_pending_order, is_too_young, distance, qty_tolerance,
}
use claude_code_and_vive_cod.Execution.PositionReconciler.Positions.{is_unchanged, new_row}

module _ {F C : Type 0} where
  -- The row is still the snapshot's, and the pass may write.
  unfoldable pub may_write : Setup F C → PosRow F → PosRow F → Bool
  may_write e snapshot row = not e.dry_run && is_unchanged e snapshot row

  abbrev pub wanted_qty : Setup F C → Position F → PosRow F → PosRow F
  wanted_qty e bp row = record row {
    qty = bp.qty;
    avg_price = bp.avg_price;
    updated_at = some e.now;
  }

  abbrev pub wanted_price : Setup F C → Position F → PosRow F → PosRow F
  wanted_price e bp row = record row { avg_price = bp.avg_price; updated_at = some e.now }

  -- The row that a position of the broker asks for, in place of `row`.
  unfoldable pub wanted_row : Setup F C → String → PosRow F → Position F → PosRow F → PosRow F
  wanted_row e symbol snapshot bp row =
      if ltb qty_tolerance (distance snapshot.qty bp.qty)
      then if has_pending_order e.now symbol e.orders then row else wanted_qty e bp row
      else if e.drifted snapshot.avg_price bp.avg_price
      then wanted_price e bp row
      else row

  -- By what the snapshot holds and what the table holds, for a position of the broker.
  unfoldable pub held_row :
      Setup F C → String → Option (PosRow F) → Position F → Option (PosRow F) → Option (PosRow F)
  held_row e symbol none bp none = if e.dry_run then none else some (new_row e symbol bp)
  held_row e symbol none bp (some row) = some row
  held_row e symbol (some snapshot) bp none = none
  held_row e symbol (some snapshot) bp (some row) =
      some (if may_write e snapshot row then wanted_row e symbol snapshot bp row else row)

  -- For a row of the snapshot that the broker does not know.
  unfoldable pub stale_row : Setup F C → String → PosRow F → Option (PosRow F) → Option (PosRow F)
  stale_row e symbol snapshot none = none
  stale_row e symbol snapshot (some row) =
      if has_pending_order e.now symbol e.orders
        || (is_too_young e.now snapshot.updated_at || not (may_write e snapshot row))
      then some row
      else none

  unfoldable pub row_after :
      Setup F C
      → String
      → Option (PosRow F)
      → Option (Position F)
      → Option (PosRow F)
      → Option (PosRow F)
  row_after e symbol none none row = row
  row_after e symbol (some snapshot) none row = stale_row e symbol snapshot row
  row_after e symbol snapshot (some bp) row = held_row e symbol snapshot bp row
