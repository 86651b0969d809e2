-- ===== src/Execution/OrderMachine/Fill.antt =====
-- What `process_fill` does on each branch, the refused ones included.
use claude_code_and_vive_cod.Prelude.{
  ◌≡◌, ◌⊎◌, refl, inl, inr, Bool, true, false, ◌||◌, some, String, str_eq, eq_iff, pos, ◌+ℤ◌, ◌≤ℤ◌,
  ◌<ℤ◌, leb_ℤ, ltb_ℤ, arith, +ℤ_parts, if◌then◌else◌, Bool-cases,
}
use claude_code_and_vive_cod.Floats.{FloatOps}
use claude_code_and_vive_cod.Brokers.Models.{OrderStatus, pending, Order, status_eq}
use claude_code_and_vive_cod.Execution.OrderMachine.{
  Machine, Result, ok, err, invalid_transition, FillEvent, valid_transition, get, write,
  process_fill, fill_found, settle_fill, fill_order, status_after_fill,
}
use claude_code_and_vive_cod.Execution.OrderMachine.Graph.{Leads, here, next}
use claude_code_and_vive_cod.Execution.OrderMachine.Transition.{get-write}

-- The filled quantity lies between zero and the ordered quantity.
pub record IsFilled {F : Type 0} (o : Order F) : Type 0 where
  pub from_zero : pos 0 ≤ℤ o.filled_qty
  pub to_qty : o.filled_qty ≤ℤ o.qty

-- The status is the same, or one valid transition away.
abbrev pub Stays : OrderStatus → OrderStatus → Type 0
Stays s t = (t ≡ s) ⊎ (valid_transition s t ≡ true)

module _ {F W : Type 0} where
  -- The call refused the fill, and the store is as it was.
  abbrev pub Refuses : Machine F W → Result (Order F) × Machine F W → Type 0
  Refuses m (ok o, m') = ⊥
  Refuses m (err e, m') = (j : String) → get m' j ≡ get m j

  -- The fill was within the ordered quantity and is added to the stored order `p`, whose status
  -- stays or makes one valid transition; the call returned the stored order, or raised.
  pub record Adds (event : FillEvent F) (p : Order F) (m : Machine F W)
      (r : Result (Order F) × Machine F W) : Type 0 where
    pub after : Order F
    pub positive : pos 0 <ℤ event.filled_qty
    pub fits : p.filled_qty +ℤ event.filled_qty ≤ℤ p.qty
    pub added : after.filled_qty ≡ p.filled_qty +ℤ event.filled_qty
    pub same_qty : after.qty ≡ p.qty
    pub moves : Stays p.status after.status
    pub stored :
        (j : String) → get r.1 j ≡ (if str_eq event.order_id j then some after else get m j)
    pub returned : (o : Order F) → r.0 ≡ ok o → o ≡ after

module _ {F W : Type 0} where
  pub Adds-IsFilled :
      (event : FillEvent F) (p : Order F) (m : Machine F W) (r : Result (Order F) × Machine F W)
      (a : Adds event p m r)
      → IsFilled p
      → IsFilled a.after
  Adds-IsFilled event p m r a b = record {
    from_zero =
        ground (arith, a.added, a.positive, b.from_zero, +ℤ_parts p.filled_qty event.filled_qty);
    to_qty = ground (arith, a.added, a.fits, a.same_qty);
  }

same_or_valid : (s t : OrderStatus) → (status_eq t s || valid_transition s t) ≡ true → Stays s t
same_or_valid s t h = elim (Bool-cases (valid_transition s t)) [
  | inl v ↦ inr v
  | inr bad ↦ inl (ground arith)
]

pub Stays-Leads : {s t : OrderStatus} → Stays s t → Leads s t
Stays-Leads (inl e) = rw e here
Stays-Leads (inr v) = next here v

module _ {F W : Type 0} ⦃fl : FloatOps F⦄ (on_change : Order F → W → Bool × W) where
  module _ (event : FillEvent F) (p : Order F) (m : Machine F W)
      (positive : pos 0 <ℤ event.filled_qty)
      (fits : p.filled_qty +ℤ event.filled_qty ≤ℤ p.qty) where
    settled-Adds : Adds event p m (settle_fill on_change event.order_id (fill_order event p) m)
    unfolding settle_fill fill_order
    settled-Adds =
        let q = fill_order event p in
        let t = status_after_fill q in
        let q' = record q { status = t } in
        let w = (on_change q' m.world).1 in
        elim (Bool-cases (status_eq t q.status || valid_transition q.status t)) [
          | inl v ↦ rw v (record {
            after = q';
            positive = positive;
            fits = fits;
            added = refl;
            same_qty = refl;
            moves = same_or_valid q.status t v;
            stored = λ j. get-write m event.order_id j q' w;
            returned = λ o e. ground arith;
          })
          | inr bad ↦ rw bad (record {
            after = q;
            positive = positive;
            fits = fits;
            added = refl;
            same_qty = refl;
            moves = inl refl;
            stored = λ j. get-write m event.order_id j q m.world;
            returned = λ o e. cc;
          })
        ]

    pending_refused :
        p.status ≡ pending
        → IsFilled p
        → settle_fill on_change event.order_id (fill_order event p) m
          ≡ (err invalid_transition, write m event.order_id (fill_order event p))
    unfolding settle_fill fill_order status_after_fill valid_transition
    pending_refused e b = ground (arith, +ℤ_parts p.filled_qty event.filled_qty)

  within :
      (event : FillEvent F) (p : Order F)
      → leb_ℤ event.filled_qty (pos 0) ≡ false
      → ltb_ℤ p.qty (p.filled_qty +ℤ event.filled_qty) ≡ false
      → (pos 0 <ℤ event.filled_qty) × (p.filled_qty +ℤ event.filled_qty ≤ℤ p.qty)
  within event p a b = ground arith

  -- A fill of a known order either is refused with the store as it was, and then it is not
  -- positive or exceeds what is left; or it is within the order and is added to the stored order,
  -- whose status stays or makes one valid transition, with every other entry unchanged.
  pub process_fill-cases :
      (event : FillEvent F) (m : Machine F W) (p : Order F)
      → get m event.order_id ≡ some p
      → (Refuses m (process_fill on_change event m)
          × ((event.filled_qty ≤ℤ pos 0) ⊎ (p.qty <ℤ p.filled_qty +ℤ event.filled_qty)))
        ⊎ Adds event p m (process_fill on_change event m)
  unfolding process_fill fill_found
  process_fill-cases event m p h = elim (Bool-cases (leb_ℤ event.filled_qty (pos 0))) [
    | inl low ↦ rw (h, low) (inl ((λ j. refl), inl (ground arith)))
    | inr positive ↦ elim (Bool-cases (ltb_ℤ p.qty (p.filled_qty +ℤ event.filled_qty))) [
      | inl over ↦ rw (h, positive, over) (inl ((λ j. refl), inr (ground arith)))
      | inr fits ↦
          let (low, high) = within event p positive fits in
          rw (h, positive, fits) (inr (settled-Adds event p m low high))
    ]
  ]

  -- Filling an order that was never submitted, by a positive quantity within the order, raises an
  -- invalid transition, and the stored order has the fill's quantity added all the same.
  pub process_fill_pending :
      (event : FillEvent F) (m : Machine F W) (p : Order F)
      → get m event.order_id ≡ some p
      → p.status ≡ pending
      → IsFilled p
      → pos 0 <ℤ event.filled_qty
      → p.filled_qty +ℤ event.filled_qty ≤ℤ p.qty
      → let (r, m') = process_fill on_change event m in
        (r ≡ err invalid_transition)
        × (get m' event.order_id ≡ some (fill_order event p))
        × ((fill_order event p).filled_qty ≡ p.filled_qty +ℤ event.filled_qty)
  unfolding process_fill fill_found fill_order
  process_fill_pending event m p h e b positive fits =
      let low : leb_ℤ event.filled_qty (pos 0) ≡ false = ground arith in
      let high : ltb_ℤ p.qty (p.filled_qty +ℤ event.filled_qty) ≡ false = ground arith in
      rw (h, low, high)
        (rw (pending_refused event p m positive fits e b) (
          refl,
          ground (
            arith,
            get-write m event.order_id event.order_id (fill_order event p) m.world,
            eq_iff event.order_id event.order_id,
          ),
          refl,
        ))
