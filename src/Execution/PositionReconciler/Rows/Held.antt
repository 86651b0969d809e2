-- ===== src/Execution/PositionReconciler/Rows/Held.antt =====
-- One position of the broker, at its own symbol and at another.
use claude_code_and_vive_cod.Prelude.{
  ◌≡◌, refl, sym, ap, ◌∙◌, inl, inr, Bool, false, Option, none, some, String, str_eq, ltb,
  Bool-cases, Option-cases,
}
use claude_code_and_vive_cod.Dict.{Dict, lookup, lookup-insert_self}
use claude_code_and_vive_cod.Brokers.Models.{Position}
use claude_code_and_vive_cod.Execution.PositionReconciler.{
  PosRow, Setup, Session, has_pending_order, distance, qty_tolerance,
}
use claude_code_and_vive_cod.Execution.PositionReconciler.Positions.{
  new_row, missing, differing, both, check_held, write_qty, write_price, record_action, classified,
}
use claude_code_and_vive_cod.Execution.PositionReconciler.Rows.{
  may_write, wanted_qty, wanted_price, wanted_row, held_row,
}
use claude_code_and_vive_cod.Execution.PositionReconciler.Rows.Locked.{
  put-apart, some-if, if_same, locked_write-apart, locked_write-acts, locked_write-none,
}

module _ {F C : Type 0} where
  record_action-keeps_table :
      (a : Option (C × Bool)) (s : Session F C) → (record_action a s).table ≡ s.table
  record_action-keeps_table none s = refl
  record_action-keeps_table (some (a, confirmed)) s = refl

  missing-apart :
      (e : Setup F C) (j k : String) (bp : Position F) (s : Session F C)
      → str_eq j k ≡ false
      → lookup k (missing e j bp s).table ≡ lookup k s.table
  unfolding missing
  missing-apart e j k bp s h = elim (Bool-cases e.dry_run) [
    | inl dry ↦ rw dry refl
    | inr wet ↦ elim (Option-cases (lookup j s.table)) [
      | inl n ↦ rw (n, wet) (put-apart j k (new_row e j bp) s.table h)
      | inr (row, y) ↦ rw (y, wet) refl
    ]
  ]

  write_qty-apart :
      (e : Setup F C) (j k : String) (bp : Position F) (a : Option (C × Bool)) (row : PosRow F)
      (s : Session F C)
      → str_eq j k ≡ false
      → lookup k (write_qty e j bp a row s).table ≡ lookup k s.table
  write_qty-apart e j k bp a row s h =
      put-apart j k _ (record_action a s).table h ∙ ap (lookup k) (record_action-keeps_table a s)

  both-apart :
      (e : Setup F C) (j k : String) (snapshot : PosRow F) (bp : Position F) (s : Session F C)
      → str_eq j k ≡ false
      → lookup k (both e j snapshot bp s).table ≡ lookup k s.table
  unfolding both differing
  both-apart e j k snapshot bp s h =
      let action = classified e.ca_runtime j snapshot bp in
      elim (Bool-cases (ltb qty_tolerance (distance snapshot.qty bp.qty))) [
        | inl differ ↦ elim (Bool-cases (has_pending_order e.now j e.orders)) [
          | inl p ↦ rw (differ, p) refl
          | inr np ↦
              rw (differ, np)
                (locked_write-apart e j k snapshot (write_qty e j bp action)
                  (λ row t. write_qty-apart e j k bp action row t h) _)
        ]
        | inr equal ↦ elim (Bool-cases (e.drifted snapshot.avg_price bp.avg_price)) [
          | inl d ↦
              rw (equal, d)
                (locked_write-apart e j k snapshot (write_price e j bp)
                  (λ row t. put-apart j k _ t.table h) s)
          | inr nd ↦ rw (equal, nd) refl
        ]
      ]

  pub check_held-apart :
      (e : Setup F C) (snapshot : Dict (PosRow F)) (j k : String) (bp : Position F)
      (s : Session F C)
      → str_eq j k ≡ false
      → lookup k (check_held e snapshot j bp s).table ≡ lookup k s.table
  unfolding check_held
  check_held-apart e snapshot j k bp s h = elim (Option-cases (lookup j snapshot)) [
    | inl n ↦ rw n (missing-apart e j k bp s h)
    | inr (snap, y) ↦ rw y (both-apart e j k snap bp s h)
  ]

  missing-acts :
      (e : Setup F C) (k : String) (bp : Position F) (s : Session F C) (found : Option (PosRow F))
      → lookup k s.table ≡ found
      → lookup k (missing e k bp s).table ≡ held_row e k none bp found
  unfolding missing held_row
  missing-acts e k bp s none f = elim (Bool-cases e.dry_run) [
    | inl dry ↦ rw dry f
    | inr wet ↦ rw (f, wet) (lookup-insert_self k (new_row e k bp) s.table)
  ]
  missing-acts e k bp s (some row) f = elim (Bool-cases e.dry_run) [
    | inl dry ↦ rw dry f
    | inr wet ↦ rw (f, wet) f
  ]

  both-acts :
      (e : Setup F C) (k : String) (snapshot : PosRow F) (bp : Position F) (s : Session F C)
      (found : Option (PosRow F))
      → lookup k s.table ≡ found
      → lookup k (both e k snapshot bp s).table ≡ held_row e k (some snapshot) bp found
  unfolding both differing held_row wanted_row
  both-acts e k snapshot bp s none f =
      elim (Bool-cases (ltb qty_tolerance (distance snapshot.qty bp.qty))) [
        | inl differ ↦ elim (Bool-cases (has_pending_order e.now k e.orders)) [
          | inl p ↦ rw (differ, p) f
          | inr np ↦ rw (differ, np) (locked_write-none e k snapshot _ _ f)
        ]
        | inr equal ↦ elim (Bool-cases (e.drifted snapshot.avg_price bp.avg_price)) [
          | inl d ↦ rw (equal, d) (locked_write-none e k snapshot _ s f)
          | inr nd ↦ rw (equal, nd) f
        ]
      ]
  both-acts e k snapshot bp s (some row) f =
      let action = classified e.ca_runtime k snapshot bp in
      elim (Bool-cases (ltb qty_tolerance (distance snapshot.qty bp.qty))) [
        | inl differ ↦ elim (Bool-cases (has_pending_order e.now k e.orders)) [
          | inl p ↦ rw (differ, p) (f ∙ ap some (sym (if_same (may_write e snapshot row) row)))
          | inr np ↦
              rw (differ, np)
                (locked_write-acts e k snapshot (write_qty e k bp action)
                    (λ found'. some (wanted_qty e bp found'))
                    (λ row t.
                      lookup-insert_self k (wanted_qty e bp row) (record_action action t).table)
                    _ (some row) f
                  ∙ some-if (may_write e snapshot row) _ row)
        ]
        | inr equal ↦ elim (Bool-cases (e.drifted snapshot.avg_price bp.avg_price)) [
          | inl d ↦
              rw (equal, d)
                (locked_write-acts e k snapshot (write_price e k bp)
                    (λ found'. some (wanted_price e bp found'))
                    (λ row t. lookup-insert_self k (wanted_price e bp row) t.table) s (some row) f
                  ∙ some-if (may_write e snapshot row) _ row)
          | inr nd ↦ rw (equal, nd) (f ∙ ap some (sym (if_same (may_write e snapshot row) row)))
        ]
      ]

  pub check_held-acts :
      (e : Setup F C) (snapshot : Dict (PosRow F)) (k : String) (bp : Position F) (s : Session F C)
      → lookup k (check_held e snapshot k bp s).table
        ≡ held_row e k (lookup k snapshot) bp (lookup k s.table)
  unfolding check_held
  check_held-acts e snapshot k bp s = elim (Option-cases (lookup k snapshot)) [
    | inl n ↦ rw n (missing-acts e k bp s (lookup k s.table) refl)
    | inr (snap, y) ↦ rw y (both-acts e k snap bp s (lookup k s.table) refl)
  ]
