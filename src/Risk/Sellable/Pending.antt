-- ===== src/Risk/Sellable/Pending.antt =====
-- The total of the pending sells, row by row, and a sell that is validated against it.
use claude_code_and_vive_cod.Prelude.{
  ℕ, ◌+◌, ◌^◌, ◌≤◌, ◌<◌, ◌≡◌, true, false, some, inl, inr, List, [], ◌∷◌, ◌++◌, pos, arith,
  Bool-cases, Option-cases,
}
use claude_code_and_vive_cod.Values.{int_value}
use claude_code_and_vive_cod.Text.{Text, upper}
use claude_code_and_vive_cod.Risk.Sellable.{
  pass, OrderRow, as_count, reserves, add_count, pending_from, pending_sell_qty_from_rows,
  resolve_sellable, validate_sell_qty,
}
use claude_code_and_vive_cod.Risk.Sellable.Bounds.{
  as_count-int, validate_sell_qty-IsCovered, IsCovered,
}

-- The total so far only adds to the result.
pending_from-total :
    (w : Text) (t : ℕ) (rows : List OrderRow)
    → pending_from w t rows ≡ add_count (some t) (pending_from w 0 rows)
unfolding pending_from
pending_from-total w t [] = ground arith
pending_from-total w t (r ∷ rows) = elim (Bool-cases (reserves w r)) [
  | inl kept ↦ elim (Option-cases (as_count r.qty)) [
    | inl unread ↦ ground arith
    | inr (q, read) ↦
        ground (arith, pending_from-total w (t + q) rows, pending_from-total w (0 + q) rows)
  ]
  | inr skipped ↦ ground (arith, pending_from-total w t rows)
]

pending_from-append :
    (w : Text) (t : ℕ) (xs ys : List OrderRow)
    → pending_from w t (xs ++ ys) ≡ add_count (pending_from w t xs) (pending_from w 0 ys)
unfolding pending_from
pending_from-append w t [] ys = pending_from-total w t ys
pending_from-append w t (r ∷ xs) ys = elim (Bool-cases (reserves w r)) [
  | inl kept ↦ elim (Option-cases (as_count r.qty)) [
    | inl unread ↦ ground arith
    | inr (q, read) ↦ ground (arith, pending_from-append w (t + q) xs ys)
  ]
  | inr skipped ↦ ground (arith, pending_from-append w t xs ys)
]

-- The pending quantity of two batches of rows is the sum of the batches' quantities, and is
-- refused exactly if one of them is; so the order of the batches does not matter.
pub pending_sell_qty-append :
    (symbol : Text) (xs ys : List OrderRow)
    → (pending_sell_qty_from_rows (xs ++ ys) symbol
        ≡ add_count (pending_sell_qty_from_rows xs symbol) (pending_sell_qty_from_rows ys symbol))
      × (pending_sell_qty_from_rows (xs ++ ys) symbol
          ≡ pending_sell_qty_from_rows (ys ++ xs) symbol)
unfolding pending_sell_qty_from_rows
pending_sell_qty-append symbol xs ys =
    let w = upper symbol in
    (
      pending_from-append w 0 xs ys,
      ground (arith, pending_from-append w 0 xs ys, pending_from-append w 0 ys xs),
    )

pending_from-cons :
    (w : Text) (row : OrderRow) (rows : List OrderRow) (q p : ℕ)
    → reserves w row ≡ true
    → as_count row.qty ≡ some q
    → pending_from w 0 rows ≡ some p
    → pending_from w 0 (row ∷ rows) ≡ some (q + p)
unfolding pending_from
pending_from-cons w row rows q p kept read before =
    ground (arith, pending_from-total w (0 + q) rows)

-- A sell that is validated against the broker's figure less the pending sells, and is then
-- reserved by a row of its own, leaves a pending total that exceeds neither the held nor the
-- orderable quantity; the counts have at most 53 bits.
pub reserved_sell_covered :
    (symbol : Text) (rows : List OrderRow) (row : OrderRow) (held orderable pending : ℕ)
    → held < 2 ^ 53
    → orderable < 2 ^ 53
    → pending < 2 ^ 53
    → pending_sell_qty_from_rows rows symbol ≡ some pending
    → reserves (upper symbol) row ≡ true
    → validate_sell_qty row.qty (
        resolve_sellable
          (int_value (pos held))
          (int_value (pos orderable))
          (int_value (pos pending))
          false)
      ≡ pass
    → (total : ℕ) × (pending_sell_qty_from_rows (row ∷ rows) symbol ≡ some total)
      × (total ≤ held)
      × (total ≤ orderable)
unfolding pending_sell_qty_from_rows
reserved_sell_covered symbol rows row held orderable pending bh bo bp before kept passed =
    let covered : IsCovered false (as_count (int_value (pos held)))
        (as_count (int_value (pos orderable))) (as_count (int_value (pos pending)))
        (as_count row.qty) =
      validate_sell_qty-IsCovered row.qty _ _ _ false passed in
    let covered' : IsCovered false (some held) (some orderable) (some pending) (as_count row.qty) =
      rw (as_count-int held bh, as_count-int orderable bo, as_count-int pending bp) at covered in
    elim (Option-cases (as_count row.qty)) [
      | inl unread ↦ absurd (rw unread at covered')
      | inr (q, read) ↦
          let bounds : IsCovered false (some held) (some orderable) (some pending) (some q) =
            rw read at covered' in
          (
            q + pending,
            pending_from-cons (upper symbol) row rows q pending kept read before,
            omega arith,
            omega arith,
          )
    ]
