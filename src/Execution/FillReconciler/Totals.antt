-- ===== src/Execution/FillReconciler/Totals.antt =====
-- The fills of an order, added up, and the orders' filled quantities.
use claude_code_and_vive_cod.Prelude.{
  ℕ, ◌≡◌, refl, sym, ap, ◌∙◌, inl, inr, Bool, true, false, List, [], ◌∷◌, String, ℤ, pos, ◌+ℤ◌,
  ◌-ℤ◌, ◌≤ℤ◌, leb_ℤ, max_ℤ, arith, int_laws, -ℤ_parts, ◌==◌, if◌then◌else◌, Bool-cases,
}
use claude_code_and_vive_cod.Execution.FillReconciler.{
  OrderRow, Tables, select_rows, existing_filled_qty, insert_fill, sync_row, sync_rows,
  sync_fills_all_open_orders,
}
use mathlib.Core.Path.{subst}

add_back : (m n : ℤ) → m -ℤ n +ℤ n ≡ m
add_back m n = omega int_laws

raised_by : (m n : ℤ) → leb_ℤ (m -ℤ n) (pos 0) ≡ false → max_ℤ n m ≡ m
raised_by m n h = ground (arith, -ℤ_parts m n)

not_raised : (m n : ℤ) → leb_ℤ (m -ℤ n) (pos 0) ≡ true → max_ℤ n m ≡ n
not_raised m n h = let e = low in ground (arith, e)
  where
    low : m ≤ℤ n
    low = ground (arith, -ℤ_parts m n)

same_id : (a b : ℕ) → (a == b) ≡ true → a ≡ b
same_id a b h = ground arith

self_id : (a : ℕ) → (a == a) ≡ true
self_id a = ground arith

settled_row : (m n : ℤ) → m ≤ℤ n → leb_ℤ (m -ℤ n) (pos 0) ≡ true
settled_row m n h = ground (arith, -ℤ_parts m n)

module _ {F : Type 0} where
  -- What the fills of an order should add up to, from what they add up to now: the largest filled
  -- quantity of its rows, if that is more.
  abbrev pub target : ℕ → List (OrderRow F) → ℤ → ℤ
  target id [] now = now
  target id (r ∷ rs) now = target id rs (if r.id == id then max_ℤ now r.filled_qty else now)

  own_total :
      (r : OrderRow F) (t : Tables F)
      → existing_filled_qty r.id (sync_row false r t).fills
        ≡ max_ℤ (existing_filled_qty r.id t.fills) r.filled_qty
  unfolding sync_row insert_fill existing_filled_qty
  own_total r t =
      let n = existing_filled_qty r.id t.fills in
      elim (Bool-cases (leb_ℤ (r.filled_qty -ℤ n) (pos 0))) [
        | inl low ↦ rw low (sym (not_raised r.filled_qty n low))
        | inr high ↦
            rw (high, self_id r.id) (add_back r.filled_qty n ∙ sym (raised_by r.filled_qty n high))
      ]

  sync_row-total :
      (id : ℕ) (r : OrderRow F) (t : Tables F)
      → existing_filled_qty id (sync_row false r t).fills ≡ (
          if r.id == id
          then max_ℤ (existing_filled_qty id t.fills) r.filled_qty
          else existing_filled_qty id t.fills)
  unfolding sync_row insert_fill existing_filled_qty
  sync_row-total id r t = elim (Bool-cases (r.id == id)) [
    | inl hit ↦ rw hit (
        subst
          (λ i.
            existing_filled_qty i (sync_row false r t).fills
            ≡ max_ℤ (existing_filled_qty i t.fills) r.filled_qty)
          (same_id r.id id hit) (own_total r t))
    | inr miss ↦
        elim (Bool-cases (leb_ℤ (r.filled_qty -ℤ existing_filled_qty r.id t.fills) (pos 0))) [
          | inl low ↦ rw (low, miss) refl
          | inr high ↦ rw (high, miss) refl
        ]
  ]

  sync_rows-total :
      (id : ℕ) (rs : List (OrderRow F)) (t : Tables F)
      → existing_filled_qty id (sync_rows false rs t).fills
        ≡ target id rs (existing_filled_qty id t.fills)
  unfolding sync_rows
  sync_rows-total id [] t = refl
  sync_rows-total id (r ∷ rs) t =
      sync_rows-total id rs (sync_row false r t) ∙ ap (target id rs) (sync_row-total id r t)

  -- After a pass that is not dry the fills of every order add up to the largest filled quantity
  -- of the selected rows of that order, or to what they added up to before if that is more; so no
  -- fill is counted twice, and no other order's fills change.
  pub sync_fills-total :
      (broker : String) (id : ℕ) (orders : List (OrderRow F)) (t : Tables F)
      → existing_filled_qty id (sync_fills_all_open_orders broker false orders t).fills
        ≡ target id (select_rows broker orders) (existing_filled_qty id t.fills)
  unfolding sync_fills_all_open_orders
  sync_fills-total broker id orders t = sync_rows-total id (select_rows broker orders) t

  target-grows : (id : ℕ) (rs : List (OrderRow F)) (n : ℤ) → n ≤ℤ target id rs n
  target-grows id [] n = omega arith
  target-grows id (r ∷ rs) n =
      ground (arith, target-grows id rs (if r.id == id then max_ℤ n r.filled_qty else n))

  -- Every row's quantity is covered by its order's fills.
  abbrev Settled : List (OrderRow F) → Tables F → Type 0
  Settled [] t = Unit
  Settled (r ∷ rs) t = (r.filled_qty ≤ℤ existing_filled_qty r.id t.fills) × Settled rs t

  Settled-sync_rows :
      (dry_run : Bool) (rs : List (OrderRow F)) (t : Tables F)
      → Settled rs t
      → sync_rows dry_run rs t ≡ t
  unfolding sync_rows sync_row
  Settled-sync_rows dry_run [] t h = refl
  Settled-sync_rows dry_run (r ∷ rs) t (h, hs) =
      rw (settled_row r.filled_qty (existing_filled_qty r.id t.fills) h)
        (Settled-sync_rows dry_run rs t hs)

  target-covers :
      (r : OrderRow F) (n : ℤ) → r.filled_qty ≤ℤ (if r.id == r.id then max_ℤ n r.filled_qty else n)
  target-covers r n = ground arith

  kept_Settled :
      (rs qs : List (OrderRow F)) (t : Tables F) → Settled rs t → Settled rs (sync_rows false qs t)
  kept_Settled [] qs t h = tt
  kept_Settled (r ∷ rs) qs t (h, hs) = (
    rw (sync_rows-total r.id qs t)
        (ground (arith, h, target-grows r.id qs (existing_filled_qty r.id t.fills))),
    kept_Settled rs qs t hs,
  )

  later :
      (rs : List (OrderRow F)) (r : OrderRow F) (t : Tables F)
      → Settled rs (sync_rows false rs (sync_row false r t))
      → Settled rs (sync_rows false (r ∷ rs) t)
  unfolding sync_rows
  later rs r t h = h

  sync_rows-Settled : (rs : List (OrderRow F)) (t : Tables F) → Settled rs (sync_rows false rs t)
  sync_rows-Settled [] t = tt
  sync_rows-Settled (r ∷ rs) t = (
    rw (sync_rows-total r.id (r ∷ rs) t) (
        ground (
          arith,
          target-covers r (existing_filled_qty r.id t.fills),
          target-grows r.id rs (
              if r.id == r.id
              then max_ℤ (existing_filled_qty r.id t.fills) r.filled_qty
              else existing_filled_qty r.id t.fills),
        )),
    later rs r t (sync_rows-Settled rs (sync_row false r t)),
  )

  -- A second pass over the same orders, dry or not, writes no fill and reports no repair.
  pub sync_fills_idem :
      (broker : String) (dry_run : Bool) (orders : List (OrderRow F)) (t : Tables F)
      → let once = sync_fills_all_open_orders broker false orders t in
        sync_fills_all_open_orders broker dry_run orders once ≡ once
  unfolding sync_fills_all_open_orders
  sync_fills_idem broker dry_run orders t =
      let rs = select_rows broker orders in
      Settled-sync_rows dry_run rs (sync_rows false rs t) (sync_rows-Settled rs t)
