-- ===== src/Execution/OrderMachine/Graph.antt =====
-- The transition table as a graph.
use claude_code_and_vive_cod.Prelude.{◌↔◌, ◌≡◌, refl, true, false, arith}
use claude_code_and_vive_cod.Brokers.Models.{
  OrderStatus, pending, submitted, partial_filled, filled,
}
use claude_code_and_vive_cod.Execution.OrderMachine.{valid_transition, is_open}

-- Some valid transition leaves an open status.
abbrev successor : OrderStatus → OrderStatus
successor pending = submitted
successor submitted = filled
successor partial_filled = filled
successor _ = submitted

-- active_orders keeps an order exactly if some transition is valid for its status.
pub valid_transition-is_open :
    (s : OrderStatus) → (is_open s ≡ true) ↔ ((t : OrderStatus) × (valid_transition s t ≡ true))
unfolding valid_transition
valid_transition-is_open s = (λ h. (successor s, ground arith), λ (t, v). ground arith)

-- One status reaches another along the valid transitions.
pub data Leads : OrderStatus → OrderStatus → Type 0 where
  here : {s : OrderStatus} → Leads s s
  next : {s t u : OrderStatus} → Leads s t → valid_transition t u ≡ true → Leads s u

-- A status that is not open leads to itself alone.
pub Leads-closed : {s t : OrderStatus} → Leads s t → is_open s ≡ false → t ≡ s
unfolding valid_transition
Leads-closed here h = refl
Leads-closed (next l v) h = ground (arith, Leads-closed l h)
