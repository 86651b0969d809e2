-- ===== src/Execution/PositionReconciler/Runs.antt =====
-- Whole runs of `reconcile`: the rows that agree with the broker afterwards, and a failed commit.
pub mod Logs
pub mod Dry
use claude_code_and_vive_cod.Prelude.{
  ◌+◌, ◌≡◌, refl, ap, ◌∙◌, inl, inr, Bool, true, false, not, ◌||◌, ◌&&◌, none, some, List, [], ◌∷◌,
  String, arith, Bool-cases, if◌then◌else◌,
}
use mathlib.Core.Path.{subst}
use claude_code_and_vive_cod.Dict.{Dict, lookup, insert, IsKeyed, insert-IsKeyed}
use claude_code_and_vive_cod.Brokers.Models.{Position}
use claude_code_and_vive_cod.Execution.PositionReconciler.{
  PosRow, Gap, Repair, Session, has_pending_order, is_too_young,
}
use claude_code_and_vive_cod.Execution.PositionReconciler.Positions.{compare_positions}
use claude_code_and_vive_cod.Execution.PositionReconciler.OrderPass.{pass_raised}
use claude_code_and_vive_cod.Execution.PositionReconciler.Rows.Settled.{
  Agrees, EqualsItself, compare_positions-Agrees, compare_positions-gone,
}
use claude_code_and_vive_cod.Execution.PositionReconciler.Run.{
  Fetch, listed, unimplemented, Result, World, Run, by_symbol, setup_of, persist_log, publish_ws,
  commit_positions, order_part, start_session, run_passes, finish, run_fetched, reconcile, is_nil,
  skipped,
}

by_symbol-IsKeyed :
    {F : Type 0} (ps : List (Position F)) (d : Dict (Position F))
    → IsKeyed d
    → IsKeyed (by_symbol d ps)
unfolding by_symbol
by_symbol-IsKeyed [] d h = h
by_symbol-IsKeyed (p ∷ ps) d h =
    by_symbol-IsKeyed ps (insert p.symbol p d) (insert-IsKeyed p.symbol p d h)

module _ {F C : Type 0} where
  -- The alert and the log leave the rest of the world alone.
  abbrev pub SameTables : World F C → World F C → Type 0
  SameTables a b =
      (a.positions ≡ b.positions)
      × (a.applied ≡ b.applied)
      × (a.book ≡ b.book)
      × (a.cancels ≡ b.cancels)

  pub publish_ws-SameTables : (r : Result) (w : World F C) → SameTables (publish_ws r w) w
  unfolding publish_ws
  publish_ws-SameTables r w = elim (Bool-cases (is_nil r.gaps && is_nil r.errors)) [
    | inl q ↦ rw q (refl, refl, refl, refl)
    | inr n ↦ rw n (refl, refl, refl, refl)
  ]

  pub publish_ws-logs :
      (r : Result) (w : World F C)
      → ((publish_ws r w).logs ≡ w.logs) × ((publish_ws r w).recorded ≡ w.recorded)
  unfolding publish_ws
  publish_ws-logs r w = elim (Bool-cases (is_nil r.gaps && is_nil r.errors)) [
    | inl q ↦ rw q (refl, refl)
    | inr n ↦ rw n (refl, refl)
  ]

  order_part-keeps_positions :
      (x : Run F C) (b : Bool) (gaps : List Gap) (repairs : List Repair) (w : World F C)
      → (order_part x b gaps repairs w).0.positions ≡ w.positions
  unfolding order_part
  order_part-keeps_positions x true gaps repairs w = refl
  order_part-keeps_positions x false gaps repairs w = refl

  commit_positions-table :
      (x : Run F C) (s : Session F C) (w : World F C)
      → x.dry_run ≡ false
      → x.commits ≡ true
      → (commit_positions x s w).positions ≡ s.table
  unfolding commit_positions
  commit_positions-table x s w wet ok = rw (wet, ok) refl

  -- The positions that a run leaves are those of the position pass.
  finish-positions :
      (x : Run F C) (broker : Dict (Position F)) (gaps : List Gap) (w : World F C)
      → x.dry_run ≡ false
      → x.commits ≡ true
      → (finish x (run_passes x broker gaps w)).0.positions
        ≡ (compare_positions (setup_of x) x.snapshot broker (start_session x gaps w)).table
  unfolding run_passes persist_log
  finish-positions x broker gaps w wet ok =
      let s = compare_positions (setup_of x) x.snapshot broker (start_session x gaps w) in
      (publish_ws-SameTables _ _).0
      ∙ (order_part-keeps_positions x _ s.gaps s.repairs _ ∙ commit_positions-table x s w wet ok)

  pub reconcile-fetched :
      (x : Run F C) (w : World F C) {f : Fetch F}
      → w.is_busy ≡ false
      → x.fetch ≡ f
      → reconcile x w ≡ run_fetched x f w
  unfolding reconcile
  reconcile-fetched x w free h =
      ap (λ (b : Bool). if b then (w, skipped) else run_fetched x x.fetch w) free
      ∙ ap (λ f. run_fetched x f w) h

module _ {F C : Type 0} (x : Run F C) (w : World F C) (wet : x.dry_run ≡ false)
    (ok : x.commits ≡ true) (free : w.is_busy ≡ false) (keyed : IsKeyed x.snapshot) (k : String)
    (same : lookup k w.positions ≡ lookup k x.snapshot)
    (settled : has_pending_order x.position_setup.now k x.position_setup.orders ≡ false)
    (number : EqualsItself x.position_setup (lookup k x.snapshot)) where
  run-Agrees :
      (broker : Dict (Position F)) (gaps : List Gap)
      → IsKeyed broker
      → Agrees x.position_setup
          (lookup k broker)
          (lookup k (finish x (run_passes x broker gaps w)).0.positions)
  unfolding start_session
  run-Agrees broker gaps hb = rw (finish-positions x broker gaps w wet ok) (
      compare_positions-Agrees (setup_of x) k x.snapshot broker (start_session x gaps w) keyed hb
        wet settled same number)

  -- After a run that is not dry, whose lookup listed positions and whose commit goes through,
  -- every symbol agrees with the broker whose row no other writer moved since the snapshot, which
  -- no order may still be moving and whose price is no NaN: a position that the broker lists has
  -- a row with its quantity, and a row is left of one that it does not list only if the row is
  -- younger than an hour.
  pub reconcile-Agrees :
      (ps : List (Position F))
      → x.fetch ≡ listed ps
      → Agrees x.position_setup (lookup k (by_symbol [] ps)) (lookup k (reconcile x w).0.positions)
  unfolding run_fetched
  reconcile-Agrees ps h =
      rw (reconcile-fetched x w free h)
        (run-Agrees (by_symbol [] ps) [] (by_symbol-IsKeyed ps [] tt))

  -- If the broker has no get_positions, a run that is not dry and whose commit goes through
  -- deletes every row of an hour or more, if no other writer moved it since the snapshot, no
  -- order may still be moving it and its price is no NaN.
  pub reconcile-unimplemented :
      {row : PosRow F}
      → x.fetch ≡ unimplemented
      → lookup k x.snapshot ≡ some row
      → is_too_young x.position_setup.now row.updated_at ≡ false
      → lookup k (reconcile x w).0.positions ≡ none
  unfolding run_fetched start_session lookup
  reconcile-unimplemented {row} h held old =
      let e = subst (EqualsItself x.position_setup) held number in
      rw (reconcile-fetched x w free h, finish-positions x [] _ w wet ok)
        (compare_positions-gone (setup_of x) k x.snapshot [] (start_session x _ w) keyed tt wet
          settled held (same ∙ held) refl e old)

module _ {F C : Type 0} where
  commit_positions-failed :
      (x : Run F C) (s : Session F C) (w : World F C)
      → x.dry_run ≡ false
      → x.commits ≡ false
      → SameTables (commit_positions x s w) w
  unfolding commit_positions
  commit_positions-failed x s w wet bad = rw (wet, bad) (refl, refl, refl, refl)

  -- If the commit of the position pass fails in a run that is not dry and whose lookup listed
  -- positions, the rows are as before, no corporate action is marked as applied, the order pass
  -- does not run, and the result has the error.
  pub reconcile-failed_commit :
      (x : Run F C) (w : World F C) (ps : List (Position F))
      → w.is_busy ≡ false
      → x.fetch ≡ listed ps
      → x.dry_run ≡ false
      → x.commits ≡ false
      → ((reconcile x w).0.positions ≡ w.positions)
        × ((reconcile x w).0.applied ≡ w.applied)
        × ((reconcile x w).0.book ≡ w.book)
        × ((reconcile x w).0.cancels ≡ w.cancels)
        × ((reconcile x w).1.errors ≡ pass_raised ∷ [])
  unfolding run_fetched run_passes order_part persist_log
  reconcile-failed_commit x w ps free h wet bad =
      let stopped : (x.dry_run || x.commits) ≡ false = ground arith in
      let s = compare_positions (setup_of x) x.snapshot (by_symbol [] ps) (start_session x [] w) in
      let c = commit_positions-failed x s w wet bad in
      let p = publish_ws-SameTables _ _ in
      rw (reconcile-fetched x w free h, stopped) (p.0 ∙ c.0, p.1 ∙ c.1, p.2 ∙ c.2, p.3 ∙ c.3, refl)
