-- ===== src/Execution/PositionReconciler/Rows/Settled.antt =====
-- After a pass over the positions: rows that agree with the broker, and rows that are left alone.
use claude_code_and_vive_cod.Prelude.{
  ℕ, ◌≡◌, ◌≢◌, ap, refl, ◌∙◌, inl, inr, Bool, true, false, ◌&&◌, Option, none, some, String, arith,
  Bool-cases, ltb, ℤ, ◌-ℤ◌, -ℤ_parts, eq_of_parts, ◌==◌,
}
use claude_code_and_vive_cod.Dict.{Dict, lookup, IsKeyed}
use claude_code_and_vive_cod.Brokers.Models.{Position}
use claude_code_and_vive_cod.Execution.PositionReconciler.{
  PosRow, Setup, Session, has_pending_order, is_too_young, same_time, distance, qty_tolerance,
}
use claude_code_and_vive_cod.Execution.PositionReconciler.Positions.{
  is_unchanged, compare_positions,
}
use claude_code_and_vive_cod.Execution.PositionReconciler.Rows.{
  may_write, wanted_row, held_row, stale_row, row_after,
}
use claude_code_and_vive_cod.Execution.PositionReconciler.Rows.Loops.{compare_positions-row}

distance_zero : (a b : ℤ) → ltb qty_tolerance (distance a b) ≡ false → a ≡ b
distance_zero a b h = let d = -ℤ_parts a b in ground (arith, d, eq_of_parts a b)

distance_self : (a : ℤ) → (distance a a == 0) ≡ true
unfolding ◌-ℤ◌
distance_self a = ground arith

distance_apart : (a b : ℤ) → a ≢ b → (distance a b == 0) ≡ false
distance_apart a b d = elim (Bool-cases (distance a b == 0)) [
  | inl zero_distance ↦ absurd (d (distance_zero a b (ground arith)))
  | inr far ↦ far
]

id_apart : (a b : ℕ) → a ≢ b → (a == b) ≡ false
id_apart a b d = ground arith

same_time_apart : (t u : Option ℕ) → t ≢ u → same_time t u ≡ false
same_time_apart none none d = absurd (d refl)
same_time_apart none (some u) d = refl
same_time_apart (some t) none d = refl
same_time_apart (some t) (some u) d = id_apart t u (λ e. d (ap some e))

and_false : (b : Bool) → (b && false) ≡ false
and_false true = refl
and_false false = refl

same_time_self : (t : Option ℕ) → same_time t t ≡ true
same_time_self none = refl
same_time_self (some t) = ground arith

module _ {F C : Type 0} where
  -- How a symbol's row can differ from what the snapshot read: by being there or not, or in one of
  -- the columns that the snapshot has. Prices are compared as the code compares them.
  pub data Differs : Setup F C → PosRow F → PosRow F → Type 0 where
    by_id :
        {e : Setup F C} {snapshot row : PosRow F} → row.id ≢ snapshot.id → Differs e snapshot row
    by_qty :
        {e : Setup F C} {snapshot row : PosRow F} → row.qty ≢ snapshot.qty → Differs e snapshot row
    by_price :
        {e : Setup F C} {snapshot row : PosRow F}
        → e.same_price row.avg_price snapshot.avg_price ≡ false
        → Differs e snapshot row
    by_time :
        {e : Setup F C} {snapshot row : PosRow F}
        → row.updated_at ≢ snapshot.updated_at
        → Differs e snapshot row

  abbrev pub IsMoved : Setup F C → Option (PosRow F) → Option (PosRow F) → Type 0
  IsMoved e none none = ⊥
  IsMoved e none (some row) = Unit {0}
  IsMoved e (some snapshot) none = Unit {0}
  IsMoved e (some snapshot) (some row) = Differs e snapshot row

  -- The row of a position that the broker holds has its quantity, and only a young row is left of
  -- one that it does not hold.
  abbrev pub Agrees : Setup F C → Option (Position F) → Option (PosRow F) → Type 0
  Agrees e none none = Unit {0}
  Agrees e none (some row) = is_too_young e.now row.updated_at ≡ true
  Agrees e (some bp) none = ⊥
  Agrees e (some bp) (some row) = row.qty ≡ bp.qty

  -- `==` of a price and itself, which only a NaN fails.
  abbrev pub EqualsItself : Setup F C → Option (PosRow F) → Type 0
  EqualsItself e none = Unit {0}
  EqualsItself e (some row) = e.same_price row.avg_price row.avg_price ≡ true

  is_unchanged_self :
      (e : Setup F C) (row : PosRow F)
      → e.same_price row.avg_price row.avg_price ≡ true
      → is_unchanged e row row ≡ true
  unfolding is_unchanged
  is_unchanged_self e row h =
      rw (distance_self row.qty, same_time_self row.updated_at, h) (ground arith)

  Differs-changed :
      {e : Setup F C} {snapshot row : PosRow F}
      → Differs e snapshot row
      → is_unchanged e snapshot row ≡ false
  unfolding is_unchanged
  Differs-changed {e} {snapshot} {row} (by_id d) = rw (id_apart row.id snapshot.id d) refl
  Differs-changed {e} {snapshot} {row} (by_qty d) =
      rw (distance_apart row.qty snapshot.qty d) (and_false (row.id == snapshot.id))
  Differs-changed {e} {snapshot} {row} (by_price d) = rw d (ground arith)
  Differs-changed {e} {snapshot} {row} (by_time d) =
      rw (same_time_apart row.updated_at snapshot.updated_at d) (ground arith)

  row_after-moved :
      (e : Setup F C) (k : String) (snapshot : Option (PosRow F)) (bp : Option (Position F))
      (found : Option (PosRow F))
      → IsMoved e snapshot found
      → row_after e k snapshot bp found ≡ found
  unfolding row_after held_row stale_row may_write
  row_after-moved e k none bp none h = absurd h
  row_after-moved e k none none (some row) h = refl
  row_after-moved e k none (some bp) (some row) h = refl
  row_after-moved e k (some snapshot) none none h = refl
  row_after-moved e k (some snapshot) none (some row) h =
      let changed = Differs-changed h in ground arith
  row_after-moved e k (some snapshot) (some bp) none h = refl
  row_after-moved e k (some snapshot) (some bp) (some row) h =
      let changed = Differs-changed h in ground arith

  wanted_row-qty :
      (e : Setup F C) (k : String) (row : PosRow F) (bp : Position F)
      → has_pending_order e.now k e.orders ≡ false
      → (wanted_row e k row bp row).qty ≡ bp.qty
  unfolding wanted_row
  wanted_row-qty e k row bp np = elim (Bool-cases (ltb qty_tolerance (distance row.qty bp.qty))) [
    | inl differ ↦ rw (differ, np) refl
    | inr equal ↦
        let same = distance_zero row.qty bp.qty equal in
        elim (Bool-cases (e.drifted row.avg_price bp.avg_price)) [
          | inl d ↦ rw (equal, d) same
          | inr nd ↦ rw (equal, nd) same
        ]
  ]

  row_after-Agrees :
      (e : Setup F C) (k : String) (row : Option (PosRow F)) (bp : Option (Position F))
      → e.dry_run ≡ false
      → has_pending_order e.now k e.orders ≡ false
      → EqualsItself e row
      → Agrees e bp (row_after e k row bp row)
  unfolding row_after held_row stale_row may_write wanted_row
  row_after-Agrees e k none none wet np h = tt
  row_after-Agrees e k none (some bp) wet np h = rw wet refl
  row_after-Agrees e k (some row) (some bp) wet np h =
      rw (is_unchanged_self e row h, wet) (wanted_row-qty e k row bp np)
  row_after-Agrees e k (some row) none wet np h =
      elim (Bool-cases (is_too_young e.now row.updated_at)) [
        | inl young ↦ rw (np, young) young
        | inr old ↦ rw (is_unchanged_self e row h, np, old, wet) tt
      ]

  row_after-gone :
      (e : Setup F C) (k : String) (row : PosRow F)
      → e.dry_run ≡ false
      → has_pending_order e.now k e.orders ≡ false
      → e.same_price row.avg_price row.avg_price ≡ true
      → is_too_young e.now row.updated_at ≡ false
      → row_after e k (some row) none (some row) ≡ none
  unfolding row_after stale_row may_write
  row_after-gone e k row wet np h old = rw (is_unchanged_self e row h, np, old, wet) refl

module _ {F C : Type 0} (e : Setup F C) (k : String) (snapshot : Dict (PosRow F))
    (broker : Dict (Position F)) (s : Session F C) (hs : IsKeyed snapshot)
    (hb : IsKeyed broker) where
  -- The position pass leaves a symbol's row as it finds it when it comes to write, if the row has
  -- come or gone since the pass read its snapshot, or differs from the snapshot in its id, its
  -- quantity, its average price or the time of its last update, each alone.
  pub compare_positions-moved :
      IsMoved e (lookup k snapshot) (lookup k s.table)
      → lookup k (compare_positions e snapshot broker s).table ≡ lookup k s.table
  compare_positions-moved h =
      compare_positions-row e k snapshot broker s hs hb
      ∙ row_after-moved e k (lookup k snapshot) (lookup k broker) (lookup k s.table) h

  pub compare_positions-Agrees :
      e.dry_run ≡ false
      → has_pending_order e.now k e.orders ≡ false
      → lookup k s.table ≡ lookup k snapshot
      → EqualsItself e (lookup k snapshot)
      → Agrees e (lookup k broker) (lookup k (compare_positions e snapshot broker s).table)
  compare_positions-Agrees wet np same h =
      rw (compare_positions-row e k snapshot broker s hs hb, same)
        (row_after-Agrees e k (lookup k snapshot) (lookup k broker) wet np h)

  -- A row that the broker does not list is deleted once it is old.
  pub compare_positions-gone :
      {row : PosRow F}
      → e.dry_run ≡ false
      → has_pending_order e.now k e.orders ≡ false
      → lookup k snapshot ≡ some row
      → lookup k s.table ≡ some row
      → lookup k broker ≡ none
      → e.same_price row.avg_price row.avg_price ≡ true
      → is_too_young e.now row.updated_at ≡ false
      → lookup k (compare_positions e snapshot broker s).table ≡ none
  compare_positions-gone {row} wet np held there unlisted h old =
      rw (compare_positions-row e k snapshot broker s hs hb, held, there, unlisted)
        (row_after-gone e k row wet np h old)
