-- ===== src/Execution/PositionReconciler/Rows/Stale.antt =====
-- One row that the broker does not know, at its own symbol and at another.
use claude_code_and_vive_cod.Prelude.{
  ◌≡◌, refl, ◌∙◌, inl, inr, false, Option, none, some, String, str_eq, Bool-cases,
}
use claude_code_and_vive_cod.Dict.{lookup, lookup-erase, lookup-erase_self}
use claude_code_and_vive_cod.Execution.PositionReconciler.{
  PosRow, Setup, Session, has_pending_order, is_too_young,
}
use claude_code_and_vive_cod.Execution.PositionReconciler.Positions.{stale, remove_row}
use claude_code_and_vive_cod.Execution.PositionReconciler.Rows.{may_write, stale_row}
use claude_code_and_vive_cod.Execution.PositionReconciler.Rows.Locked.{
  if-not, locked_write-apart, locked_write-acts, locked_write-none,
}

module _ {F C : Type 0} where
  remove-apart :
      (j k : String) (row : PosRow F) (s : Session F C)
      → str_eq j k ≡ false
      → lookup k (remove_row j row s).table ≡ lookup k s.table
  remove-apart j k row s h = rw (lookup-erase j k s.table, h) refl

  pub stale-apart :
      (e : Setup F C) (j k : String) (snapshot : PosRow F) (s : Session F C)
      → str_eq j k ≡ false
      → lookup k (stale e j snapshot s).table ≡ lookup k s.table
  unfolding stale
  stale-apart e j k snapshot s h = elim (Bool-cases (has_pending_order e.now j e.orders)) [
    | inl p ↦ rw p refl
    | inr np ↦ elim (Bool-cases (is_too_young e.now snapshot.updated_at)) [
      | inl young ↦ rw (np, young) refl
      | inr old ↦
          rw (np, old)
            (locked_write-apart e j k snapshot (remove_row j) (λ row t. remove-apart j k row t h) _)
    ]
  ]

  pub stale-acts :
      (e : Setup F C) (k : String) (snapshot : PosRow F) (s : Session F C)
      (found : Option (PosRow F))
      → lookup k s.table ≡ found
      → lookup k (stale e k snapshot s).table ≡ stale_row e k snapshot found
  unfolding stale stale_row
  stale-acts e k snapshot s none f = elim (Bool-cases (has_pending_order e.now k e.orders)) [
    | inl p ↦ rw p f
    | inr np ↦ elim (Bool-cases (is_too_young e.now snapshot.updated_at)) [
      | inl young ↦ rw (np, young) f
      | inr old ↦ rw (np, old) (locked_write-none e k snapshot _ _ f)
    ]
  ]
  stale-acts e k snapshot s (some row) f = elim (Bool-cases (has_pending_order e.now k e.orders)) [
    | inl p ↦ rw p f
    | inr np ↦ elim (Bool-cases (is_too_young e.now snapshot.updated_at)) [
      | inl young ↦ rw (np, young) f
      | inr old ↦
          rw (np, old)
            (locked_write-acts e k snapshot (remove_row k) (λ found'. none)
                (λ row t. lookup-erase_self k t.table) _ (some row) f
              ∙ if-not (may_write e snapshot row) none (some row))
    ]
  ]
