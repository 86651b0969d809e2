-- ===== src/Execution/PositionReconciler/Rows/Dry.antt =====
-- A pass over the positions that only looks.
use claude_code_and_vive_cod.Prelude.{
  ◌≡◌, refl, ◌∙◌, inl, inr, true, String, Bool-cases, Option-cases, ltb, is_some,
}
use claude_code_and_vive_cod.Dict.{Dict, lookup, each, each-keeps}
use claude_code_and_vive_cod.Brokers.Models.{Position}
use claude_code_and_vive_cod.Execution.PositionReconciler.{
  PosRow, Setup, Session, has_pending_order, is_too_young, distance, qty_tolerance,
}
use claude_code_and_vive_cod.Execution.PositionReconciler.Positions.{
  locked_write, lock_unchanged, missing, differing, both, check_held, stale, check_stale,
  compare_positions,
}

module _ {F C : Type 0} where
  -- The rows, the repairs and the recorded actions are as before; gaps may have been noted.
  abbrev pub LooksOnly : Session F C → Session F C → Type 0
  LooksOnly before after =
      (after.table ≡ before.table)
      × (after.repairs ≡ before.repairs)
      × (after.recorded ≡ before.recorded)

  locked_write-dry :
      (e : Setup F C) (symbol : String) (snapshot : PosRow F)
      (write : PosRow F → Session F C → Session F C) (s : Session F C)
      → e.dry_run ≡ true
      → locked_write e symbol snapshot write s ≡ s
  unfolding locked_write lock_unchanged
  locked_write-dry e symbol snapshot write s dry = rw dry refl

  missing-dry :
      (e : Setup F C) (symbol : String) (bp : Position F) (s : Session F C)
      → e.dry_run ≡ true
      → LooksOnly s (missing e symbol bp s)
  unfolding missing
  missing-dry e symbol bp s dry = rw dry (refl, refl, refl)

  both-dry :
      (e : Setup F C) (symbol : String) (snapshot : PosRow F) (bp : Position F) (s : Session F C)
      → e.dry_run ≡ true
      → LooksOnly s (both e symbol snapshot bp s)
  unfolding both differing
  both-dry e symbol snapshot bp s dry =
      elim (Bool-cases (ltb qty_tolerance (distance snapshot.qty bp.qty))) [
        | inl differ ↦ elim (Bool-cases (has_pending_order e.now symbol e.orders)) [
          | inl p ↦ rw (differ, p) (refl, refl, refl)
          | inr np ↦ rw (differ, np, locked_write-dry e symbol snapshot _ _ dry) (refl, refl, refl)
        ]
        | inr equal ↦ elim (Bool-cases (e.drifted snapshot.avg_price bp.avg_price)) [
          | inl d ↦ rw (equal, d, locked_write-dry e symbol snapshot _ s dry) (refl, refl, refl)
          | inr nd ↦ rw (equal, nd) (refl, refl, refl)
        ]
      ]

  check_held-dry :
      (e : Setup F C) (snapshot : Dict (PosRow F)) (symbol : String) (bp : Position F)
      (s : Session F C)
      → e.dry_run ≡ true
      → LooksOnly s (check_held e snapshot symbol bp s)
  unfolding check_held
  check_held-dry e snapshot symbol bp s dry = elim (Option-cases (lookup symbol snapshot)) [
    | inl n ↦ rw n (missing-dry e symbol bp s dry)
    | inr (row, y) ↦ rw y (both-dry e symbol row bp s dry)
  ]

  check_stale-dry :
      (e : Setup F C) (broker : Dict (Position F)) (symbol : String) (snapshot : PosRow F)
      (s : Session F C)
      → e.dry_run ≡ true
      → LooksOnly s (check_stale e broker symbol snapshot s)
  unfolding check_stale stale
  check_stale-dry e broker symbol snapshot s dry =
      elim (Bool-cases (is_some (lookup symbol broker))) [
        | inl y ↦ rw y (refl, refl, refl)
        | inr n ↦ elim (Bool-cases (has_pending_order e.now symbol e.orders)) [
          | inl p ↦ rw (n, p) (refl, refl, refl)
          | inr np ↦ elim (Bool-cases (is_too_young e.now snapshot.updated_at)) [
            | inl young ↦ rw (n, np, young) (refl, refl, refl)
            | inr old ↦
                rw (n, np, old, locked_write-dry e symbol snapshot _ _ dry) (refl, refl, refl)
          ]
        ]
      ]

  then-LooksOnly : (s t u : Session F C) → LooksOnly s t → LooksOnly t u → LooksOnly s u
  then-LooksOnly s t u a b = (b.0 ∙ a.0, b.1 ∙ a.1, b.2 ∙ a.2)

  pub compare_positions-dry :
      (e : Setup F C) (snapshot : Dict (PosRow F)) (broker : Dict (Position F)) (s : Session F C)
      → e.dry_run ≡ true
      → LooksOnly s (compare_positions e snapshot broker s)
  unfolding compare_positions
  compare_positions-dry e snapshot broker s dry =
      let first =
        each-keeps (LooksOnly s) (check_held e snapshot)
          (λ k bp t h.
            then-LooksOnly s t (check_held e snapshot k bp t) h
              (check_held-dry e snapshot k bp t dry))
          broker s (refl, refl, refl) in
      each-keeps (LooksOnly s) (check_stale e broker)
        (λ k row t h.
          then-LooksOnly s t (check_stale e broker k row t) h
            (check_stale-dry e broker k row t dry))
        snapshot (each (check_held e snapshot) broker s) first
