-- ===== src/Execution/PositionReconciler/OrderPass.antt =====
-- `_reconcile_pending_orders`, `_mark_order_lost` and `_sync_order_status` of
-- backend/execution/reconciler.py. What the broker answers is an argument, and so is
-- `OrderFillPoller.resync`, which may write the two tables through the fill pipeline.
pub mod Fills
use claude_code_and_vive_cod.Prelude.{
  ℕ, ◌+◌, Bool, true, false, not, ◌&&◌, ◌||◌, Option, none, some, List, [], ◌∷◌, String, str_eq, ℤ,
  ltb, ◌==◌, if◌then◌else◌,
}
use claude_code_and_vive_cod.Brokers.Models.{
  Order, OrderStatus, pending, submitted, partial_filled, filled, canceled, rejected, expired,
  unknown, status_eq,
}
use claude_code_and_vive_cod.Execution.PositionReconciler.{
  Gap, GapKind, Repair, RepairKind, missing_broker_id, lost_order, order_status_mismatch,
  sync_order_resync_error, sync_order_deferred, cancel_lost_order, sync_order_runtime, sync_order,
  is_open_status, stale_min_age,
}

-- A row of the orders table; the empty broker id and a null one are both `none`.
pub record OrderRow (F : Type 0) : Type 0 where
  pub id : ℕ
  pub broker_order_id : Option String
  pub symbol : String
  pub qty : ℤ
  pub price : F
  pub status : String
  pub filled_qty : ℤ
  pub avg_fill_price : F
  pub created_at : ℕ
  pub updated_at : Option ℕ

pub record FillRow (F : Type 0) : Type 0 where
  pub order_id : ℕ
  pub qty : ℤ
  pub price : F

-- The orders and the fills, the latest fill first.
pub record Book (F : Type 0) : Type 0 where
  pub orders : List (OrderRow F)
  pub fills : List (FillRow F)

-- What `get_order_status` did: an order, `None`, `NotImplementedError`, or another exception.
pub data Lookup (F : Type 0) : Type 0 where
  found : Order F → Lookup F
  absent unsupported raised : Lookup F

-- `_poller.resync`: `answered owned applied`.
pub data Resync : Type 0 where
  no_poller resync_raised : Resync
  answered : Bool → Bool → Resync

pub data ErrorKind : Type 0 where
  already_running positions_lookup positions_aborted order_lookup pass_raised : ErrorKind

-- The result's lists, the cancels that went to the broker, the latest first, and the two tables.
pub record OrderSession (F : Type 0) : Type 0 where
  pub book : Book F
  pub gaps : List Gap
  pub repairs : List Repair
  pub errors : List ErrorKind
  pub cancels : List (String × ℤ)

-- `is_zero` is the falsity of a double.
pub record OrderSetup (F : Type 0) : Type 0 where
  pub now : ℕ
  pub dry_run : Bool
  pub is_zero : F → Bool
  pub get_order_status : String → String → Lookup F
  pub resync : Order F → Book F → Resync × Book F

-- `OrderStatus.value`
abbrev pub status_text : OrderStatus → String
status_text pending = "pending"
status_text submitted = "submitted"
status_text partial_filled = "partial_filled"
status_text filled = "filled"
status_text canceled = "canceled"
status_text rejected = "rejected"
status_text expired = "expired"
status_text unknown = "unknown"

abbrev continue_if {ℓ} : {S : Type ℓ} → (S → S) → S × Bool → S
continue_if rest (s, true) = rest s
continue_if rest (s, false) = s

module _ {F : Type 0} where
  unfoldable pub open_rows : List (OrderRow F) → List (OrderRow F)
  open_rows [] = []
  open_rows (r ∷ rs) = let rest = open_rows rs in if is_open_status r.status then r ∷ rest else rest

  -- `db.get(DBOrder, id)`
  unfoldable pub get_row : ℕ → List (OrderRow F) → Option (OrderRow F)
  get_row id [] = none
  get_row id (r ∷ rs) = if r.id == id then some r else get_row id rs

  unfoldable pub set_row : OrderRow F → List (OrderRow F) → List (OrderRow F)
  set_row row [] = []
  set_row row (r ∷ rs) = if r.id == row.id then row ∷ rs else r ∷ set_row row rs

  unfoldable pub has_fill : ℕ → List (FillRow F) → Bool
  has_fill id [] = false
  has_fill id (f ∷ fs) = f.order_id == id || has_fill id fs

  abbrev pub order_gap : GapKind → String → OrderSession F → OrderSession F
  order_gap kind symbol s = record s { gaps = record { kind = kind; symbol = symbol } ∷ s.gaps }

  abbrev pub order_repaired : RepairKind → String → OrderSession F → OrderSession F
  order_repaired kind symbol s = record s {
    repairs = record { kind = kind; symbol = symbol } ∷ s.repairs;
  }

  abbrev cancel_call : OrderRow F → Option String → List (String × ℤ) → List (String × ℤ)
  cancel_call row none calls = calls
  cancel_call row (some id) calls = (id, row.qty) ∷ calls

  -- The cancel is sent, whatever the broker answers, and the row is closed.
  abbrev close_row : OrderSetup F → Option (OrderRow F) → OrderSession F → OrderSession F
  close_row e none s = s
  close_row e (some row) s =
      let closed : OrderRow F = record row { status = "canceled"; updated_at = some e.now } in
      let book' : Book F = record { orders = set_row closed s.book.orders; fills = s.book.fills } in
      order_repaired cancel_lost_order row.symbol
        (record s { book = book'; cancels = cancel_call row row.broker_order_id s.cancels })

  unfoldable pub mark_order_lost : OrderSetup F → ℕ → OrderSession F → OrderSession F
  mark_order_lost e id s = close_row e (get_row id s.book.orders) s

  -- The fill that the fallback adds.
  unfoldable pub fill_of : OrderSetup F → ℕ → Order F → FillRow F
  fill_of e id order = record {
    order_id = id;
    qty = order.filled_qty;
    price = if e.is_zero order.avg_fill_price then order.price else order.avg_fill_price;
  }

  unfoldable pub wants_fill : Bool → Order F → OrderRow F → List (FillRow F) → Bool
  wants_fill owned order row fills =
      not owned
      && (status_eq order.status filled
          && (not (str_eq row.status "filled") && not (has_fill row.id fills)))

  abbrev write_row :
      OrderSetup F → Bool → Order F → Option (OrderRow F) → OrderSession F → OrderSession F
  write_row e owned order none s = s
  write_row e owned order (some row) s =
      let synced : OrderRow F = record row {
        status = status_text order.status;
        filled_qty = order.filled_qty;
        avg_fill_price = order.avg_fill_price;
        updated_at = some e.now;
      } in
      let book' : Book F = record {
        orders = set_row synced s.book.orders;
        fills =
            if wants_fill owned order row s.book.fills
            then fill_of e row.id order ∷ s.book.fills
            else s.book.fills;
      } in
      order_repaired sync_order row.symbol (record s { book = book' })

  -- The write to the tables that no poller entry stands for.
  unfoldable pub write_status : OrderSetup F → Bool → ℕ → Order F → OrderSession F → OrderSession F
  write_status e owned id order s = write_row e owned order (get_row id s.book.orders) s

  unfoldable pub after_resync :
      OrderSetup F → ℕ → Order F → Resync → OrderSession F → OrderSession F
  after_resync e id order no_poller s = write_status e false id order s
  after_resync e id order resync_raised s = order_gap sync_order_resync_error order.symbol s
  after_resync e id order (answered true false) s = order_gap sync_order_deferred order.symbol s
  after_resync e id order (answered true true) s =
      if status_eq order.status filled || status_eq order.status partial_filled
      then order_repaired sync_order_runtime order.symbol s
      else write_status e true id order s
  after_resync e id order (answered false applied) s = write_status e false id order s

  abbrev resynced : OrderSetup F → ℕ → Order F → Resync × Book F → OrderSession F → OrderSession F
  resynced e id order (answer, book') s = after_resync e id order answer (record s { book = book' })

  unfoldable pub sync_order_status : OrderSetup F → ℕ → Order F → OrderSession F → OrderSession F
  sync_order_status e id order s =
      if e.dry_run then s else resynced e id order (e.resync order s.book) s

  abbrev mark_unless_dry : OrderSetup F → ℕ → OrderSession F → OrderSession F
  mark_unless_dry e id s = if e.dry_run then s else mark_order_lost e id s

  -- One order that the broker answered for.
  unfoldable pub settle_order :
      OrderSetup F → OrderRow F → Lookup F → OrderSession F → OrderSession F
  settle_order e row (found order) s =
      if str_eq (status_text order.status) row.status
      then s
      else sync_order_status e row.id order (order_gap order_status_mismatch row.symbol s)
  settle_order e row absent s =
      if ltb (row.created_at + stale_min_age) e.now
      then mark_unless_dry e row.id (order_gap lost_order row.symbol s)
      else s
  settle_order e row unsupported s = s
  settle_order e row raised s = record s { errors = order_lookup ∷ s.errors }

  -- Whether the loop goes on to the next order: a broker that has no such call ends it.
  abbrev goes_on : Lookup F → Bool
  goes_on unsupported = false
  goes_on _ = true

  -- One turn of the loop: the state, and whether there is another turn.
  unfoldable pub visit_order :
      OrderSetup F → OrderRow F → Option String → OrderSession F → OrderSession F × Bool
  visit_order e row none s = (order_gap missing_broker_id row.symbol s, true)
  visit_order e row (some id) s =
      let answer = e.get_order_status id row.symbol in (settle_order e row answer s, goes_on answer)

  unfoldable pub visit_orders : OrderSetup F → List (OrderRow F) → OrderSession F → OrderSession F
  visit_orders e [] s = s
  visit_orders e (r ∷ rs) s =
      let rest = λ (t : OrderSession F). visit_orders e rs t in
      continue_if rest (visit_order e r r.broker_order_id s)

  unfoldable pub reconcile_pending_orders : OrderSetup F → OrderSession F → OrderSession F
  reconcile_pending_orders e s = visit_orders e (open_rows s.book.orders) s
