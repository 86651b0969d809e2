-- ===== src/Execution/PositionReconciler/Positions.antt =====
-- `_reconcile_positions`, `_lock_unchanged` and `_superseded` of backend/execution/reconciler.py, up
-- to the commit.
use claude_code_and_vive_cod.Prelude.{
  Bool, ◌&&◌, Option, none, some, ◌∷◌, String, ltb, ◌==◌, is_some, if◌then◌else◌,
}
use claude_code_and_vive_cod.Dict.{Dict, lookup, insert, erase, each}
use claude_code_and_vive_cod.Brokers.Models.{Position}
use claude_code_and_vive_cod.Execution.PositionReconciler.{
  PosRow, GapKind, RepairKind, CaRuntime, Setup, Session, missing_in_db, position_appeared,
  qty_mismatch_pending, qty_mismatch, qty_corporate_action, qty_corporate_action_unknown,
  position_changed, stale_position_pending, stale_position_too_young, stale_db_position,
  insert_position, fix_qty, fix_avg_price, delete_position, has_pending_order, is_too_young,
  distance, qty_tolerance, same_time, drop_gap,
}

abbrev pub mismatch_kind {ℓ} : {C : Type ℓ} → Option (C × Bool) → GapKind
mismatch_kind none = qty_mismatch
mismatch_kind (some (action, confirmed)) =
    if confirmed then qty_corporate_action else qty_corporate_action_unknown

module _ {F C : Type 0} where
  abbrev pub gap : GapKind → String → Session F C → Session F C
  gap kind symbol s = record s { gaps = record { kind = kind; symbol = symbol } ∷ s.gaps }

  abbrev pub repaired : RepairKind → String → Session F C → Session F C
  repaired kind symbol s = record s {
    repairs = record { kind = kind; symbol = symbol } ∷ s.repairs;
  }

  abbrev pub superseded : GapKind → String → Session F C → Session F C
  superseded kind symbol s = gap kind symbol (record s { gaps = drop_gap symbol s.gaps })

  abbrev pub put_row : String → PosRow F → Session F C → Session F C
  put_row symbol row s = record s { table = insert symbol row s.table }

  -- The row is still what the snapshot read.
  unfoldable pub is_unchanged : Setup F C → PosRow F → PosRow F → Bool
  is_unchanged e snapshot row =
      row.id == snapshot.id
      && (distance row.qty snapshot.qty == 0
          && (e.same_price row.avg_price snapshot.avg_price
              && same_time row.updated_at snapshot.updated_at))

  abbrev pub if_unchanged : Setup F C → PosRow F → Option (PosRow F) → Option (PosRow F)
  if_unchanged e snapshot none = none
  if_unchanged e snapshot (some row) = if is_unchanged e snapshot row then some row else none

  -- The row that may be written, in a pass that writes: `row` of the source's two repairs.
  unfoldable pub lock_unchanged : Setup F C → PosRow F → Option (PosRow F) → Option (PosRow F)
  lock_unchanged e snapshot found = if e.dry_run then none else if_unchanged e snapshot found

  -- A repair of the locked row; `none` leaves the symbol to the next pass, and a dry pass as it is.
  abbrev pub on_locked :
      Setup F C
      → String
      → (PosRow F → Session F C → Session F C)
      → Option (PosRow F)
      → Session F C
      → Session F C
  on_locked e symbol write none s = if e.dry_run then s else superseded position_changed symbol s
  on_locked e symbol write (some row) s = write row s

  unfoldable pub locked_write :
      Setup F C
      → String
      → PosRow F
      → (PosRow F → Session F C → Session F C)
      → Session F C
      → Session F C
  locked_write e symbol snapshot write s =
      on_locked e symbol write (lock_unchanged e snapshot (lookup symbol s.table)) s

  abbrev pub new_row : Setup F C → String → Position F → PosRow F
  new_row e symbol bp = record {
    id = e.new_id symbol;
    qty = bp.qty;
    avg_price = bp.avg_price;
    market = bp.market;
    updated_at = some e.now;
  }

  -- `insert_position_if_missing`, and what follows on either answer.
  abbrev pub insert_if_missing :
      Setup F C → String → Position F → Option (PosRow F) → Session F C → Session F C
  insert_if_missing e symbol bp none s =
      repaired insert_position symbol (put_row symbol (new_row e symbol bp) s)
  insert_if_missing e symbol bp (some row) s = superseded position_appeared symbol s

  -- Case 3: the broker has it, the table does not.
  unfoldable pub missing : Setup F C → String → Position F → Session F C → Session F C
  missing e symbol bp s =
      let noted = gap missing_in_db symbol s in
      if e.dry_run then noted else insert_if_missing e symbol bp (lookup symbol s.table) noted

  unfoldable pub classified :
      Option (CaRuntime F C) → String → PosRow F → Position F → Option (C × Bool)
  classified none symbol snapshot bp = none
  classified (some ca) symbol snapshot bp =
      let action =
        ca.classify_broker_jump symbol snapshot.qty snapshot.avg_price bp.qty bp.avg_price in
      some (action, ca.is_confirmed action)

  -- `record(ca_action)`, and the place in `confirmed_cas`.
  abbrev pub record_action : Option (C × Bool) → Session F C → Session F C
  record_action none s = s
  record_action (some (action, confirmed)) s = record s {
    recorded = action ∷ s.recorded;
    confirmed = if confirmed then action ∷ s.confirmed else s.confirmed;
  }

  abbrev pub write_qty :
      Setup F C → String → Position F → Option (C × Bool) → PosRow F → Session F C → Session F C
  write_qty e symbol bp action row s =
      let row' : PosRow F = record row {
        qty = bp.qty;
        avg_price = bp.avg_price;
        updated_at = some e.now;
      } in
      repaired fix_qty symbol (put_row symbol row' (record_action action s))

  abbrev pub write_price : Setup F C → String → Position F → PosRow F → Session F C → Session F C
  write_price e symbol bp row s =
      let row' : PosRow F = record row { avg_price = bp.avg_price; updated_at = some e.now } in
      repaired fix_avg_price symbol (put_row symbol row' s)

  -- The quantities differ.
  unfoldable pub differing : Setup F C → String → PosRow F → Position F → Session F C → Session F C
  differing e symbol snapshot bp s =
      let action = classified e.ca_runtime symbol snapshot bp in
      if has_pending_order e.now symbol e.orders
      then gap qty_mismatch_pending symbol s
      else locked_write e symbol snapshot (write_qty e symbol bp action)
          (gap (mismatch_kind action) symbol s)

  unfoldable pub both : Setup F C → String → PosRow F → Position F → Session F C → Session F C
  both e symbol snapshot bp s =
      if ltb qty_tolerance (distance snapshot.qty bp.qty)
      then differing e symbol snapshot bp s
      else if e.drifted snapshot.avg_price bp.avg_price
      then locked_write e symbol snapshot (write_price e symbol bp) s
      else s

  abbrev pub held_by_broker :
      Setup F C → String → Position F → Option (PosRow F) → Session F C → Session F C
  held_by_broker e symbol bp none s = missing e symbol bp s
  held_by_broker e symbol bp (some snapshot) s = both e symbol snapshot bp s

  -- Cases 1 and 3, for one position of the broker.
  unfoldable pub check_held :
      Setup F C → Dict (PosRow F) → String → Position F → Session F C → Session F C
  check_held e snapshot symbol bp s = held_by_broker e symbol bp (lookup symbol snapshot) s

  abbrev pub remove_row : String → PosRow F → Session F C → Session F C
  remove_row symbol row s =
      repaired delete_position symbol (record s { table = erase symbol s.table })

  unfoldable pub stale : Setup F C → String → PosRow F → Session F C → Session F C
  stale e symbol snapshot s =
      if has_pending_order e.now symbol e.orders
      then gap stale_position_pending symbol s
      else if is_too_young e.now snapshot.updated_at
      then gap stale_position_too_young symbol s
      else locked_write e symbol snapshot (remove_row symbol) (gap stale_db_position symbol s)

  -- Case 4, for one row of the snapshot.
  unfoldable pub check_stale :
      Setup F C → Dict (Position F) → String → PosRow F → Session F C → Session F C
  check_stale e broker symbol snapshot s =
      if is_some (lookup symbol broker) then s else stale e symbol snapshot s

  -- `_reconcile_positions` up to its commit.
  unfoldable pub compare_positions :
      Setup F C → Dict (PosRow F) → Dict (Position F) → Session F C → Session F C
  compare_positions e snapshot broker s =
      each (check_stale e broker) snapshot (each (check_held e snapshot) broker s)
