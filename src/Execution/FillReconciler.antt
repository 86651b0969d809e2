-- ===== src/Execution/FillReconciler.antt =====
-- `FillReconciler` of backend/execution/reconciliation.py, over the rows of the two tables. Every
-- database call succeeds; one that raises ends the pass with the rows that were written so far.
pub mod Totals
use claude_code_and_vive_cod.Prelude.{
  ℕ, Bool, ◌&&◌, ◌||◌, List, [], ◌∷◌, String, str_eq, ℤ, pos, ◌+ℤ◌, ◌-ℤ◌, ltb_ℤ, leb_ℤ, ◌==◌,
  if◌then◌else◌,
}

-- A row of the orders table, with the price that `avg_fill_price or 0.0` gives.
pub record OrderRow (F : Type 0) : Type 0 where
  pub id : ℕ
  pub broker : String
  pub symbol : String
  pub status : String
  pub filled_qty : ℤ
  pub fill_price : F

pub record FillRow (F : Type 0) : Type 0 where
  pub order_id : ℕ
  pub qty : ℤ
  pub price : F

pub record Repair : Type 0 where
  pub symbol : String
  pub order_id : ℕ
  pub qty : ℤ

-- The fills table, the latest first, and the repairs that were reported, the latest first.
pub record Tables (F : Type 0) : Type 0 where
  pub fills : List (FillRow F)
  pub repairs : List Repair

abbrev has_fills : String → Bool
has_fills status =
    str_eq status "partial_filled"
    || (str_eq status "filled" || (str_eq status "canceled" || str_eq status "rejected"))

module _ {F : Type 0} where
  -- The query's filter.
  unfoldable pub selected : String → OrderRow F → Bool
  selected broker r = str_eq r.broker broker && (ltb_ℤ (pos 0) r.filled_qty && has_fills r.status)

  unfoldable pub select_rows : String → List (OrderRow F) → List (OrderRow F)
  select_rows broker [] = []
  select_rows broker (r ∷ rs) =
      let rest = select_rows broker rs in if selected broker r then r ∷ rest else rest

  -- `_existing_filled_qty`
  unfoldable pub existing_filled_qty : ℕ → List (FillRow F) → ℤ
  existing_filled_qty id [] = pos 0
  existing_filled_qty id (f ∷ fs) =
      let rest = existing_filled_qty id fs in if f.order_id == id then f.qty +ℤ rest else rest

  unfoldable pub insert_fill : Bool → OrderRow F → ℤ → Tables F → Tables F
  insert_fill dry_run r increment t = record {
    fills =
        if dry_run
        then t.fills
        else record { order_id = r.id; qty = increment; price = r.fill_price } ∷ t.fills;
    repairs = record { symbol = r.symbol; order_id = r.id; qty = increment } ∷ t.repairs;
  }

  -- One turn of the loop.
  unfoldable pub sync_row : Bool → OrderRow F → Tables F → Tables F
  sync_row dry_run r t =
      let increment = r.filled_qty -ℤ existing_filled_qty r.id t.fills in
      if leb_ℤ increment (pos 0) then t else insert_fill dry_run r increment t

  unfoldable pub sync_rows : Bool → List (OrderRow F) → Tables F → Tables F
  sync_rows dry_run [] t = t
  sync_rows dry_run (r ∷ rs) t = sync_rows dry_run rs (sync_row dry_run r t)

  unfoldable pub sync_fills_all_open_orders :
      String → Bool → List (OrderRow F) → Tables F → Tables F
  sync_fills_all_open_orders broker dry_run orders t =
      sync_rows dry_run (select_rows broker orders) t
