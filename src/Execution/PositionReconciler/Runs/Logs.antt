-- ===== src/Execution/PositionReconciler/Runs/Logs.antt =====
-- The rows of the reconciliation log that a run of `reconcile` writes.
use claude_code_and_vive_cod.Prelude.{
  ℕ, suc, ◌+◌, ◌≡◌, refl, ap, ◌∙◌, Bool, true, false, List, [], arith, length,
}
use claude_code_and_vive_cod.Dict.{Dict}
use claude_code_and_vive_cod.Brokers.Models.{Position}
use claude_code_and_vive_cod.Execution.PositionReconciler.{Gap, Repair, Session}
use claude_code_and_vive_cod.Execution.PositionReconciler.Positions.{compare_positions}
use claude_code_and_vive_cod.Execution.PositionReconciler.Run.{
  Fetch, LogRow, listed, unimplemented, failed, World, Run, by_symbol, setup_of, persist_log,
  commit_positions, order_part, start_session, run_passes, finish, run_fetched, reconcile, aborted,
}
use claude_code_and_vive_cod.Execution.PositionReconciler.Runs.{publish_ws-logs, reconcile-fetched}

abbrev pub rows_logged : {F : Type 0} → Fetch F → ℕ
rows_logged failed = 2
rows_logged _ = 1

module _ {F C : Type 0} where
  order_part-logs :
      (x : Run F C) (b : Bool) (gaps : List Gap) (repairs : List Repair) (w : World F C)
      → (order_part x b gaps repairs w).0.logs ≡ w.logs
  unfolding order_part
  order_part-logs x true gaps repairs w = refl
  order_part-logs x false gaps repairs w = refl

  commit_positions-logs :
      (x : Run F C) (s : Session F C) (w : World F C) → (commit_positions x s w).logs ≡ w.logs
  unfolding commit_positions
  commit_positions-logs x s w = ground arith

  run_passes-logs :
      (x : Run F C) (broker : Dict (Position F)) (gaps : List Gap) (w : World F C)
      → length (finish x (run_passes x broker gaps w)).0.logs ≡ suc (length w.logs)
  unfolding run_passes persist_log
  run_passes-logs x broker gaps w =
      let s = compare_positions (setup_of x) x.snapshot broker (start_session x gaps w) in
      ap length (publish_ws-logs _ _).0
      ∙ ap (λ (l : List LogRow). suc (length l))
          (order_part-logs x _ s.gaps s.repairs _ ∙ commit_positions-logs x s w)

  run_fetched-logs :
      (x : Run F C) (f : Fetch F) (w : World F C)
      → length (run_fetched x f w).0.logs ≡ length w.logs + rows_logged f
  unfolding run_fetched persist_log
  run_fetched-logs x (listed ps) w = omega (arith, run_passes-logs x (by_symbol [] ps) [] w)
  run_fetched-logs x unimplemented w = omega (arith, run_passes-logs x [] _ w)
  run_fetched-logs x failed w = ap length (publish_ws-logs aborted _).0 ∙ omega arith

  -- A run that found the reconciler free adds one row to the reconciliation log, and two if the
  -- lookup of the broker's positions failed.
  pub reconcile-logs :
      (x : Run F C) (w : World F C)
      → w.is_busy ≡ false
      → length (reconcile x w).0.logs ≡ length w.logs + rows_logged x.fetch
  reconcile-logs x w free = rw (reconcile-fetched x w free refl) (run_fetched-logs x x.fetch w)
