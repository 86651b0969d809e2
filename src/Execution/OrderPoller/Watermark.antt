-- ===== src/Execution/OrderPoller/Watermark.antt =====
-- What backend/execution/order_poller.py hands to `on_filled`, against its watermark.
use claude_code_and_vive_cod.Prelude.{
  ◌≡◌, refl, if◌then◌else◌, inl, inr, Bool-cases, ltb_ℤ, Bool, true, false, List, [], ◌∷◌, ◌++◌, ℤ,
  pos, ◌+ℤ◌, ◌-ℤ◌, ◌≤ℤ◌, arith, int_laws, -ℤ_parts,
}
use claude_code_and_vive_cod.Brokers.Models.{
  OrderStatus, partial_filled, filled, canceled, rejected, expired, Order,
}
use claude_code_and_vive_cod.Execution.OrderPoller.Health.{Clock}
use claude_code_and_vive_cod.Execution.OrderPoller.Entry.{
  PollEntry, Event, AuditKind, terminal_row, reported, lost, terminal, timed_out, cancel_requested,
  audited, circuit_opened, circuit_closed, Applied, wants_terminal, apply_entry, deliver, advance,
  on_filled_status, on_partial_status, on_terminal_status, by_status,
}

-- The quantity that `on_filled` has taken in these events.
abbrev pub delivered : {P : Type 0} → List (Event P) → ℤ
delivered [] = pos 0
delivered (reported o ∷ es) = o.filled_qty +ℤ delivered es
delivered (_ ∷ es) = delivered es

quiet_events :
    {P : Type 0} (o : Order P) (k : AuditKind) (b : Bool)
    → delivered (if b then terminal o ∷ audited k o ∷ [] else audited k o ∷ []) ≡ pos 0
quiet_events o k true = refl
quiet_events o k false = refl

-- A broker's report of the order, at a time, and whether `on_filled` would return.
pub record Report (P : Type 0) : Type 0 where
  pub clock : Clock
  pub order : Order P
  pub returns : Bool

module _ {P : Type 0} (r : Report P) where
  -- The watermark has moved by exactly what was delivered, and not down.
  abbrev Exact : PollEntry P → Applied P → Type 0
  Exact e a =
      (a.entry.last_reported_qty ≡ e.last_reported_qty +ℤ delivered a.events)
      × (e.last_reported_qty ≤ℤ a.entry.last_reported_qty)

  nothing : (n : ℤ) → n ≡ n +ℤ pos 0
  nothing n = omega int_laws

  caught_up : (m n : ℤ) → m ≡ n +ℤ (m -ℤ n +ℤ pos 0)
  caught_up m n = omega int_laws

  raised : (m n : ℤ) → ltb_ℤ (pos 0) (m -ℤ n) ≡ true → n ≤ℤ m
  raised m n h = ground (arith, -ℤ_parts m n)

  filled-Exact : (e : PollEntry P) → Exact e (on_filled_status r.clock r.order r.returns e)
  unfolding on_filled_status deliver advance
  filled-Exact e =
      let m = r.order.filled_qty in
      let n = e.last_reported_qty in
      elim (Bool-cases (ltb_ℤ (pos 0) (m -ℤ n))) [
        | inl up ↦ elim (Bool-cases r.returns) [
          | inl kept ↦ rw (up, kept) (caught_up m n, raised m n up)
          | inr lost_call ↦ rw (up, lost_call) (nothing n, omega arith)
        ]
        | inr same ↦ rw same (nothing n, omega arith)
      ]

  partial-Exact : (e : PollEntry P) → Exact e (on_partial_status r.clock r.order r.returns e)
  unfolding on_partial_status deliver advance
  partial-Exact e =
      let m = r.order.filled_qty in
      let n = e.last_reported_qty in
      elim (Bool-cases (ltb_ℤ (pos 0) (m -ℤ n))) [
        | inl up ↦ elim (Bool-cases r.returns) [
          | inl kept ↦ rw (up, kept) (caught_up m n, raised m n up)
          | inr lost_call ↦ rw (up, lost_call) (nothing n, omega arith)
        ]
        | inr same ↦ rw same (nothing n, omega arith)
      ]

  terminal-Exact : (e : PollEntry P) → Exact e (on_terminal_status r.clock r.order e)
  unfolding on_terminal_status
  terminal-Exact e = elim (Bool-cases e.terminal_fired) [
    | inl old ↦ rw old (nothing e.last_reported_qty, omega arith)
    | inr new ↦
        simp
          (
            new,
            quiet_events r.order (terminal_row r.order.status) (wants_terminal r.order.status e),
          )
          (nothing e.last_reported_qty, omega arith)
  ]

  status-Exact :
      (s : OrderStatus) (e : PollEntry P) → Exact e (by_status r.clock r.order s r.returns e)
  unfolding by_status advance
  status-Exact filled e = filled-Exact e
  status-Exact canceled e = terminal-Exact e
  status-Exact rejected e = terminal-Exact e
  status-Exact expired e = terminal-Exact e
  status-Exact partial_filled e = partial-Exact e
  status-Exact _ e = (nothing e.last_reported_qty, omega arith)

  apply_entry-Exact : (e : PollEntry P) → Exact e (apply_entry r.clock r.order r.returns e)
  unfolding apply_entry
  apply_entry-Exact e = status-Exact r.order.status (record e { order = r.order })

-- The entry, and the events of all reports, the latest first, after the reports one by one; an
-- entry that was taken off the list is driven on, as a resync that already holds it would.
unfoldable pub drive : {P : Type 0} → List (Report P) → PollEntry P → PollEntry P × List (Event P)
drive [] e = (e, [])
drive (r ∷ rs) e =
    let a = apply_entry r.clock r.order r.returns e in
    let (e', es) = drive rs a.entry in (e', es ++ a.events)

add_assoc : (a b c : ℤ) → a +ℤ (b +ℤ c) ≡ a +ℤ b +ℤ c
add_assoc a b c = omega int_laws

moved_twice : (k m n d e : ℤ) → m ≡ n +ℤ d → k ≡ m +ℤ e → k ≡ n +ℤ (e +ℤ d)
moved_twice k m n d e h g = rw (g, h) (omega int_laws)

delivered-append :
    {P : Type 0} (xs ys : List (Event P)) → delivered (xs ++ ys) ≡ delivered xs +ℤ delivered ys
delivered-append [] ys = omega int_laws
delivered-append (reported o ∷ xs) ys =
    rw (delivered-append xs ys) (add_assoc o.filled_qty (delivered xs) (delivered ys))
delivered-append (lost o ∷ xs) ys = delivered-append xs ys
delivered-append (terminal o ∷ xs) ys = delivered-append xs ys
delivered-append (timed_out o ∷ xs) ys = delivered-append xs ys
delivered-append (cancel_requested o ∷ xs) ys = delivered-append xs ys
delivered-append (audited k o ∷ xs) ys = delivered-append xs ys
delivered-append (circuit_opened n ∷ xs) ys = delivered-append xs ys
delivered-append (circuit_closed n ∷ xs) ys = delivered-append xs ys

-- Through any reports of an order, repeated, stale or out of order, and whichever callbacks
-- raise, the quantity that on_filled has taken is exactly how far the watermark has moved, and
-- the watermark never falls.
pub drive_exact :
    {P : Type 0} (rs : List (Report P)) (e : PollEntry P)
    → let (e', es) = drive rs e in
      (e'.last_reported_qty ≡ e.last_reported_qty +ℤ delivered es)
      × (e.last_reported_qty ≤ℤ e'.last_reported_qty)
unfolding drive
drive_exact [] e = (omega int_laws, omega arith)
drive_exact (r ∷ rs) e =
    let a = apply_entry r.clock r.order r.returns e in
    let (now, up) = apply_entry-Exact r e in
    let (later, more) = drive_exact rs a.entry in
    (
      rw (delivered-append (drive rs a.entry).1 a.events) (
          moved_twice (drive rs a.entry).0.last_reported_qty a.entry.last_reported_qty
            e.last_reported_qty (delivered a.events) (delivered (drive rs a.entry).1) now later),
      omega arith,
    )
