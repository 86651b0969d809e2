-- ===== src/Execution/OrderMachine/Traces.antt =====
-- What any sequence of transitions and fills does to one order.
use claude_code_and_vive_cod.Prelude.{
  ◌≡◌, refl, ◌∙◌, ap, inl, inr, Bool, true, false, Option, none, some, List, [], ◌∷◌, String,
  str_eq, eq_iff, ◌≤ℤ◌, arith, +ℤ_parts, Bool-cases,
}
use claude_code_and_vive_cod.Floats.{FloatOps}
use claude_code_and_vive_cod.Brokers.Models.{OrderStatus, Order}
use claude_code_and_vive_cod.Execution.OrderMachine.{
  Machine, Result, ok, err, FillEvent, valid_transition, get, process_fill, fill_found, transition,
  is_open,
}
use claude_code_and_vive_cod.Execution.OrderMachine.Graph.{Leads, here, next, Leads-closed}
use claude_code_and_vive_cod.Execution.OrderMachine.Transition.{Moves, transition-Moves}
use claude_code_and_vive_cod.Execution.OrderMachine.Fill.{
  IsFilled, Refuses, Adds, Adds-IsFilled, Stays-Leads, process_fill-cases,
}

-- `cancel` and `reject` are transitions.
pub data MachineCall (F : Type 0) : Type 0 where
  move : String → OrderStatus → MachineCall F
  fill : FillEvent F → MachineCall F

pub Leads-trans : {s t u : OrderStatus} → Leads s t → Leads t u → Leads s u
Leads-trans l here = l
Leads-trans l (next k v) = next (Leads-trans l k) v

-- The order `q` is what became of `p`: its status was reached along valid transitions, its ordered
-- quantity is the same, and its filled quantity has not fallen and is still within the order.
pub record Follows {F : Type 0} (p q : Order F) : Type 0 where
  pub leads : Leads p.status q.status
  pub same_qty : q.qty ≡ p.qty
  pub grows : p.filled_qty ≤ℤ q.filled_qty
  pub within : IsFilled q

Follows-refl : {F : Type 0} (p : Order F) → IsFilled p → Follows p p
Follows-refl p b = record { leads = here; same_qty = refl; grows = omega arith; within = b }

Follows-trans : {F : Type 0} (p q r : Order F) → Follows p q → Follows q r → Follows p r
Follows-trans p q r a b = record {
  leads = Leads-trans a.leads b.leads;
  same_qty = b.same_qty ∙ a.same_qty;
  grows = omega (arith, a.grows, b.grows);
  within = b.within;
}

-- What stands under `id` after a step, if `p` stood there before it.
abbrev pub Kept : {F W : Type 0} → String → Order F → Machine F W → Type 0
Kept {F} id p m' = (q : Order F) × (get m' id ≡ some q) × Follows p q

moved-Follows :
    {F : Type 0} (p q o : Order F) (new : OrderStatus)
    → q ≡ p
    → valid_transition q.status new ≡ true
    → o ≡ record q { status = new }
    → IsFilled p
    → Follows p o
moved-Follows p q o new e v same b = record {
  leads = rw same (rw (← e) (next here v));
  same_qty = ap (λ x. x.qty) same ∙ ap (λ x. x.qty) e;
  grows = ground arith;
  within = ground arith;
}

module _ {F W : Type 0} where
  same_Kept :
      (id : String) (p : Order F) (m m' : Machine F W)
      → get m id ≡ some p
      → get m' id ≡ get m id
      → IsFilled p
      → Kept id p m'
  same_Kept id p m m' h e b = (p, e ∙ h, Follows-refl p b)

  same_order :
      (id at : String) (m : Machine F W) (p q : Order F)
      → str_eq at id ≡ true
      → get m at ≡ some q
      → get m id ≡ some p
      → q ≡ p
  same_order id at m p q hit e g = ground (arith, eq_iff at id)

  move-Kept :
      (id at : String) (new : OrderStatus) (p : Order F) (m : Machine F W)
      (r : Result (Order F) × Machine F W)
      → Moves at new m r
      → get m id ≡ some p
      → IsFilled p
      → Kept id p r.1
  move-Kept id at new p m (err e, m') h g b = same_Kept id p m m' g (h id) b
  move-Kept id at new p m (ok o, m') ((q, e, v, same), h) g b = elim (Bool-cases (str_eq at id)) [
    | inl hit ↦
        (o, h id ∙ rw hit, moved-Follows p q o new (same_order id at m p q hit e g) v same b)
    | inr miss ↦ same_Kept id p m m' g (h id ∙ rw miss) b
  ]

  added-Follows :
      (event : FillEvent F) (p q : Order F) (m : Machine F W) (r : Result (Order F) × Machine F W)
      (a : Adds event q m r)
      → q ≡ p
      → IsFilled p
      → Follows p a.after
  added-Follows event p q m r a e b = record {
    leads = rw (← e) (Stays-Leads a.moves);
    same_qty = a.same_qty ∙ ap (λ x. x.qty) e;
    grows = ground (arith, a.added, a.positive, +ℤ_parts q.filled_qty event.filled_qty);
    within = Adds-IsFilled event q m r a (rw e b);
  }

  fill-Kept :
      (id : String) (event : FillEvent F) (p q : Order F) (m : Machine F W)
      (r : Result (Order F) × Machine F W)
      → get m event.order_id ≡ some q
      → Adds event q m r
      → get m id ≡ some p
      → IsFilled p
      → Kept id p r.1
  fill-Kept id event p q m r e a g b = elim (Bool-cases (str_eq event.order_id id)) [
    | inl hit ↦ (
      a.after,
      a.stored id ∙ rw hit,
      added-Follows event p q m r a (same_order id event.order_id m p q hit e g) b,
    )
    | inr miss ↦ same_Kept id p m r.1 g (a.stored id ∙ rw miss) b
  ]

module _ {F W : Type 0} ⦃fl : FloatOps F⦄ (on_change : Order F → W → Bool × W) where
  unfoldable pub step : MachineCall F → Machine F W → Machine F W
  step (move id new) m = (transition on_change id new m).1
  step (fill event) m = (process_fill on_change event m).1

  -- Whatever a call returns or raises, the caller goes on with the store that it left.
  unfoldable pub run : List (MachineCall F) → Machine F W → Machine F W
  run [] m = m
  run (c ∷ cs) m = run cs (step c m)

  unknown_fill :
      (event : FillEvent F) (m : Machine F W)
      → get m event.order_id ≡ none
      → (j : String) → get (process_fill on_change event m).1 j ≡ get m j
  unfolding process_fill fill_found
  unknown_fill event m e j = rw e

  refused-Kept :
      (id : String) (p : Order F) (m : Machine F W) (r : Result (Order F) × Machine F W)
      → Refuses m r
      → get m id ≡ some p
      → IsFilled p
      → Kept id p r.1
  refused-Kept id p m (ok o, m') h g b = absurd h
  refused-Kept id p m (err e, m') h g b = same_Kept id p m m' g (h id) b

  filled-Kept :
      (id : String) (event : FillEvent F) (p : Order F) (m : Machine F W) (o : Option (Order F))
      → get m event.order_id ≡ o
      → get m id ≡ some p
      → IsFilled p
      → Kept id p (process_fill on_change event m).1
  filled-Kept id event p m none e g b = same_Kept id p m _ g (unknown_fill event m e id) b
  filled-Kept id event p m (some q) e g b = elim (process_fill-cases on_change event m q e) [
    | inl refused ↦ refused-Kept id p m _ refused.0 g b
    | inr added ↦ fill-Kept id event p q m _ e added g b
  ]

  step-Kept :
      (id : String) (c : MachineCall F) (p : Order F) (m : Machine F W)
      → get m id ≡ some p
      → IsFilled p
      → Kept id p (step c m)
  unfolding step
  step-Kept id (move at new) p m g b =
      move-Kept id at new p m _ (transition-Moves on_change at new m) g b
  step-Kept id (fill event) p m g b = filled-Kept id event p m (get m event.order_id) refl g b

  -- After any sequence of transitions and fills, on any orders and with any callback failures, a
  -- known order that was within its quantity is still known under its id; its status was reached
  -- along valid transitions, its filled quantity has not fallen and never exceeds the ordered
  -- quantity.
  pub run-Follows :
      (cs : List (MachineCall F)) (id : String) (p : Order F) (m : Machine F W)
      → get m id ≡ some p
      → IsFilled p
      → (q : Order F) × (get (run cs m) id ≡ some q) × Follows p q
  unfolding run
  run-Follows [] id p m g b = (p, g, Follows-refl p b)
  run-Follows (c ∷ cs) id p m g b =
      let (q, g', f) = step-Kept id c p m g b in
      let (r, g'', f') = run-Follows cs id q (step c m) g' f.within in
      (r, g'', Follows-trans p q r f f')

  -- An order in a closed status, within its quantity, keeps that status through any sequence of
  -- transitions and fills.
  pub run-closed :
      (cs : List (MachineCall F)) (id : String) (p : Order F) (m : Machine F W)
      → get m id ≡ some p
      → IsFilled p
      → is_open p.status ≡ false
      → (q : Order F) × (get (run cs m) id ≡ some q) × (q.status ≡ p.status)
  run-closed cs id p m g b closed =
      let (q, g', f) = run-Follows cs id p m g b in (q, g', Leads-closed f.leads closed)
