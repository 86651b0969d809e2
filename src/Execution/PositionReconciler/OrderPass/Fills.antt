-- ===== src/Execution/PositionReconciler/OrderPass/Fills.antt =====
-- The fills that the order pass writes, and a pass that only looks.
use claude_code_and_vive_cod.Prelude.{
  ℕ, ◌+◌, ◌≤◌, ◌≡◌, refl, ◌∙◌, ◌⊎◌, inl, inr, Bool, true, false, ◌||◌, Option, none, some, List, [],
  ◌∷◌, arith, ◌==◌, ltb, ◌+◌, str_eq, Bool-cases, Option-cases, if◌then◌else◌, String,
}
use claude_code_and_vive_cod.Brokers.Models.{Order, status_eq, filled, partial_filled}
use claude_code_and_vive_cod.Execution.PositionReconciler.{
  stale_min_age, lost_order, order_status_mismatch,
}
use claude_code_and_vive_cod.Execution.PositionReconciler.OrderPass.{
  OrderRow, FillRow, Book, Lookup, Resync, OrderSession, OrderSetup, no_poller, resync_raised,
  answered, found, absent, unsupported, raised, status_text, get_row, has_fill, wants_fill, fill_of,
  write_row, write_status, close_row, mark_order_lost, after_resync, sync_order_status,
  settle_order, mark_unless_dry, visit_order, visit_orders, open_rows, reconcile_pending_orders,
  order_gap, continue_if,
}

-- The loop ends here or goes on: what holds either way holds.
continue_if-either {ℓ κ} :
    {S : Type ℓ} (P : S → Type κ) (rest : S → S) (turn : S × Bool)
    → P turn.0
    → P (rest turn.0)
    → P (continue_if rest turn)
continue_if-either P rest (s, true) here further = further
continue_if-either P rest (s, false) here further = here

pub if-either {ℓ κ} :
    {S : Type ℓ} (P : S → Type κ) (b : Bool) {x y : S} → P x → P y → P (if b then x else y)
if-either P true p q = p
if-either P false p q = q

module _ {F : Type 0} where
  unfoldable pub count_fills : ℕ → List (FillRow F) → ℕ
  count_fills id [] = 0
  count_fills id (f ∷ fs) = (if f.order_id == id then 1 else 0) + count_fills id fs

  has_fill-count : (id : ℕ) (fs : List (FillRow F)) → has_fill id fs ≡ false → count_fills id fs ≡ 0
  unfolding has_fill count_fills
  has_fill-count id [] h = refl
  has_fill-count id (f ∷ fs) h = ground (arith, has_fill-count id fs)

  -- No order has more than one fill.
  abbrev pub IsSingle : ℕ → OrderSession F → Type 0
  IsSingle id s = count_fills id s.book.fills ≤ 1

  write_status-IsSingle :
      (e : OrderSetup F) (owned : Bool) (id row_id : ℕ) (order : Order F) (s : OrderSession F)
      → IsSingle id s
      → IsSingle id (write_status e owned row_id order s)
  unfolding write_status wants_fill count_fills fill_of
  write_status-IsSingle e owned id row_id order s h =
      elim (Option-cases (get_row row_id s.book.orders)) [
        | inl n ↦ rw n h
        | inr (row, y) ↦ rw y (ground (arith, has_fill-count row.id s.book.fills))
      ]

  close_row-keeps_fills :
      (e : OrderSetup F) (row : Option (OrderRow F)) (s : OrderSession F)
      → (close_row e row s).book.fills ≡ s.book.fills
  close_row-keeps_fills e none s = refl
  close_row-keeps_fills e (some row) s = refl

  mark_unless_dry-keeps_fills :
      (e : OrderSetup F) (id : ℕ) (s : OrderSession F)
      → (mark_unless_dry e id s).book.fills ≡ s.book.fills
  unfolding mark_order_lost
  mark_unless_dry-keeps_fills e id s = elim (Bool-cases e.dry_run) [
    | inl dry ↦ rw dry refl
    | inr wet ↦ rw wet (close_row-keeps_fills e (get_row id s.book.orders) s)
  ]

  -- A pass that only looks writes nothing: the two tables, the cancels and the repairs are as before.
  abbrev pub WritesNothing : OrderSession F → OrderSession F → Type 0
  WritesNothing before after =
      (after.book ≡ before.book)
      × (after.cancels ≡ before.cancels)
      × (after.repairs ≡ before.repairs)

  settle_order-dry :
      (e : OrderSetup F) (row : OrderRow F) (answer : Lookup F) (s : OrderSession F)
      → e.dry_run ≡ true
      → WritesNothing s (settle_order e row answer s)
  unfolding settle_order sync_order_status
  settle_order-dry e row (found order) s h =
      elim (Bool-cases (str_eq (status_text order.status) row.status)) [
        | inl same ↦ rw same (refl, refl, refl)
        | inr other ↦ rw (other, h) (refl, refl, refl)
      ]
  settle_order-dry e row absent s h =
      elim (Bool-cases (ltb (row.created_at + stale_min_age) e.now)) [
        | inl old ↦ rw (old, h) (refl, refl, refl)
        | inr young ↦ rw young (refl, refl, refl)
      ]
  settle_order-dry e row unsupported s h = (refl, refl, refl)
  settle_order-dry e row raised s h = (refl, refl, refl)

  visit_order-dry :
      (e : OrderSetup F) (row : OrderRow F) (id : Option String) (s : OrderSession F)
      → e.dry_run ≡ true
      → WritesNothing s (visit_order e row id s).0
  unfolding visit_order
  visit_order-dry e row none s h = (refl, refl, refl)
  visit_order-dry e row (some id) s h =
      settle_order-dry e row (e.get_order_status id row.symbol) s h

  visit_orders-dry :
      (e : OrderSetup F) (rows : List (OrderRow F)) (s : OrderSession F)
      → e.dry_run ≡ true
      → WritesNothing s (visit_orders e rows s)
  unfolding visit_orders
  visit_orders-dry e [] s h = (refl, refl, refl)
  visit_orders-dry e (r ∷ rs) s h =
      let turn = visit_order e r r.broker_order_id s in
      let one = visit_order-dry e r r.broker_order_id s h in
      let rest = visit_orders-dry e rs turn.0 h in
      continue_if-either (WritesNothing s) (visit_orders e rs) turn one
        (rest.0 ∙ one.0, rest.1 ∙ one.1, rest.2 ∙ one.2)

  pub reconcile_pending_orders-dry :
      (e : OrderSetup F) (s : OrderSession F)
      → e.dry_run ≡ true
      → WritesNothing s (reconcile_pending_orders e s)
  unfolding reconcile_pending_orders
  reconcile_pending_orders-dry e s h = visit_orders-dry e (open_rows s.book.orders) s h

  write_row-owned :
      (e : OrderSetup F) (order : Order F) (row : Option (OrderRow F)) (s : OrderSession F)
      → (write_row e true order row s).book.fills ≡ s.book.fills
  unfolding wants_fill
  write_row-owned e order none s = refl
  write_row-owned e order (some row) s = refl

  after_resync-owned :
      (e : OrderSetup F) (id : ℕ) (order : Order F) (answer : Resync) (applied : Bool)
      (s : OrderSession F)
      → answer ≡ answered true applied
      → (after_resync e id order answer s).book.fills ≡ s.book.fills
  unfolding after_resync write_status
  after_resync-owned e id order answer false s h = rw h refl
  after_resync-owned e id order answer true s h =
      let told = status_eq order.status filled || status_eq order.status partial_filled in
      elim (Bool-cases told) [
        | inl t ↦ rw (h, t) refl
        | inr f ↦ rw (h, f) (write_row-owned e order (get_row id s.book.orders) s)
      ]

  -- For an order that the poller owns, whether or not its callback succeeded, and for one whose
  -- resync raised, a pass that is not dry writes no fill: the fills are those that the pipeline
  -- left.
  pub sync_order_status-owned :
      (e : OrderSetup F) (id : ℕ) (order : Order F) (s : OrderSession F)
      → e.dry_run ≡ false
      → ((e.resync order s.book).0 ≡ resync_raised)
        ⊎ ((applied : Bool) × ((e.resync order s.book).0 ≡ answered true applied))
      → (sync_order_status e id order s).book.fills ≡ (e.resync order s.book).1.fills
  unfolding sync_order_status after_resync write_status fill_of
  sync_order_status-owned e id order s wet (inl raised') = rw (raised', wet) refl
  sync_order_status-owned e id order s wet (inr (applied, owned)) = rw wet (
      after_resync-owned e id order (e.resync order s.book).0 applied
        (record s { book = (e.resync order s.book).1 }) owned)

module _ {F : Type 0} (e : OrderSetup F)
    (unpolled : (order : Order F) (book : Book F) → e.resync order book ≡ (no_poller, book))
    (id : ℕ) where
  sync_order_status-IsSingle :
      (row_id : ℕ) (order : Order F) (s : OrderSession F)
      → IsSingle id s
      → IsSingle id (sync_order_status e row_id order s)
  unfolding sync_order_status after_resync
  sync_order_status-IsSingle row_id order s h =
      if-either (IsSingle id) e.dry_run h
        (rw (unpolled order s.book) (write_status-IsSingle e false id row_id order s h))

  settle_order-IsSingle :
      (row : OrderRow F) (answer : Lookup F) (s : OrderSession F)
      → IsSingle id s
      → IsSingle id (settle_order e row answer s)
  unfolding settle_order
  settle_order-IsSingle row (found order) s h =
      elim (Bool-cases (str_eq (status_text order.status) row.status)) [
        | inl same ↦ rw same h
        | inr other ↦ rw other (
            sync_order_status-IsSingle row.id order (order_gap order_status_mismatch row.symbol s)
              h)
      ]
  settle_order-IsSingle row absent s h =
      elim (Bool-cases (ltb (row.created_at + stale_min_age) e.now)) [
        | inl old ↦
            rw (old, mark_unless_dry-keeps_fills e row.id (order_gap lost_order row.symbol s)) h
        | inr young ↦ rw young h
      ]
  settle_order-IsSingle row unsupported s h = h
  settle_order-IsSingle row raised s h = h

  visit_order-IsSingle :
      (row : OrderRow F) (broker_id : Option String) (s : OrderSession F)
      → IsSingle id s
      → IsSingle id (visit_order e row broker_id s).0
  unfolding visit_order
  visit_order-IsSingle row none s h = h
  visit_order-IsSingle row (some b) s h =
      settle_order-IsSingle row (e.get_order_status b row.symbol) s h

  visit_orders-IsSingle :
      (rows : List (OrderRow F)) (s : OrderSession F)
      → IsSingle id s
      → IsSingle id (visit_orders e rows s)
  unfolding visit_orders
  visit_orders-IsSingle [] s h = h
  visit_orders-IsSingle (r ∷ rs) s h =
      let one = visit_order-IsSingle r r.broker_order_id s h in
      continue_if-either (IsSingle id) (visit_orders e rs) (visit_order e r r.broker_order_id s) one
        (visit_orders-IsSingle rs (visit_order e r r.broker_order_id s).0 one)

  -- Without a poller, a pass over the open orders leaves no order with more than one fill that
  -- had one at most.
  pub reconcile_pending_orders-IsSingle :
      (s : OrderSession F) → IsSingle id s → IsSingle id (reconcile_pending_orders e s)
  unfolding reconcile_pending_orders
  reconcile_pending_orders-IsSingle s h = visit_orders-IsSingle (open_rows s.book.orders) s h
