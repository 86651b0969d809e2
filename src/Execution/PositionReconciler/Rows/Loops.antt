-- ===== src/Execution/PositionReconciler/Rows/Loops.antt =====
-- The two loops of `_reconcile_positions`, against the reading symbol by symbol.
use claude_code_and_vive_cod.Prelude.{
  ◌≡◌, refl, ◌∙◌, inl, inr, false, Option, none, some, String, str_eq, Bool-cases, is_some,
  if◌then◌else◌,
}
use claude_code_and_vive_cod.Dict.{Dict, lookup, each, IsKeyed, at_entry, each-view}
use claude_code_and_vive_cod.Brokers.Models.{Position}
use claude_code_and_vive_cod.Execution.PositionReconciler.{PosRow, Setup, Session}
use claude_code_and_vive_cod.Execution.PositionReconciler.Positions.{
  check_held, check_stale, compare_positions,
}
use claude_code_and_vive_cod.Execution.PositionReconciler.Rows.{held_row, stale_row, row_after}
use claude_code_and_vive_cod.Execution.PositionReconciler.Rows.Held.{
  check_held-apart, check_held-acts,
}
use claude_code_and_vive_cod.Execution.PositionReconciler.Rows.Stale.{stale-apart, stale-acts}

module _ {F C : Type 0} where
  check_stale-apart :
      (e : Setup F C) (broker : Dict (Position F)) (j k : String) (snapshot : PosRow F)
      (s : Session F C)
      → str_eq j k ≡ false
      → lookup k (check_stale e broker j snapshot s).table ≡ lookup k s.table
  unfolding check_stale
  check_stale-apart e broker j k snapshot s h = elim (Bool-cases (is_some (lookup j broker))) [
    | inl y ↦ rw y refl
    | inr n ↦ rw n (stale-apart e j k snapshot s h)
  ]

  check_stale-acts :
      (e : Setup F C) (broker : Dict (Position F)) (k : String) (snapshot : PosRow F)
      (s : Session F C)
      → lookup k (check_stale e broker k snapshot s).table ≡ (
          if is_some (lookup k broker)
          then lookup k s.table
          else stale_row e k snapshot (lookup k s.table))
  unfolding check_stale
  check_stale-acts e broker k snapshot s = elim (Bool-cases (is_some (lookup k broker))) [
    | inl y ↦ rw y refl
    | inr n ↦ rw n (stale-acts e k snapshot s (lookup k s.table) refl)
  ]

  loops-row_after :
      (e : Setup F C) (k : String) (snapshot : Option (PosRow F)) (bp : Option (Position F))
      (row : Option (PosRow F))
      → at_entry
          (λ snap r. if is_some bp then r else stale_row e k snap r)
          snapshot
          (at_entry (held_row e k snapshot) bp row)
        ≡ row_after e k snapshot bp row
  unfolding row_after
  loops-row_after e k none none row = refl
  loops-row_after e k none (some bp) row = refl
  loops-row_after e k (some snapshot) none row = refl
  loops-row_after e k (some snapshot) (some bp) row = refl

  -- Every symbol's row after the two loops, by what the snapshot, the broker and the table hold.
  pub compare_positions-row :
      (e : Setup F C) (k : String) (snapshot : Dict (PosRow F)) (broker : Dict (Position F))
      (s : Session F C)
      → IsKeyed snapshot
      → IsKeyed broker
      → lookup k (compare_positions e snapshot broker s).table
        ≡ row_after e k (lookup k snapshot) (lookup k broker) (lookup k s.table)
  unfolding compare_positions
  compare_positions-row e k snapshot broker s hs hb =
      let held =
        each-view (check_held e snapshot) (λ (t : Session F C). lookup k t.table) k
          (held_row e k (lookup k snapshot)) (λ j bp t h. check_held-apart e snapshot j k bp t h)
          (λ bp t. check_held-acts e snapshot k bp t) broker hb s in
      each-view (check_stale e broker) (λ (t : Session F C). lookup k t.table) k
        (λ snap r. if is_some (lookup k broker) then r else stale_row e k snap r)
        (λ j snap t h. check_stale-apart e broker j k snap t h)
        (λ snap t. check_stale-acts e broker k snap t) snapshot hs
        (each (check_held e snapshot) broker s)
      ∙ (rw held refl
          ∙ loops-row_after e k (lookup k snapshot) (lookup k broker) (lookup k s.table))
