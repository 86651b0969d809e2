-- ===== src/Execution/PositionReconciler/Runs/Dry.antt =====
-- A dry run of `reconcile`.
use claude_code_and_vive_cod.Prelude.{◌≡◌, refl, ◌∙◌, Bool, true, false, ◌||◌, List, []}
use claude_code_and_vive_cod.Dict.{Dict}
use claude_code_and_vive_cod.Brokers.Models.{Position}
use claude_code_and_vive_cod.Execution.PositionReconciler.{Gap, Repair, Session}
use claude_code_and_vive_cod.Execution.PositionReconciler.Positions.{compare_positions}
use claude_code_and_vive_cod.Execution.PositionReconciler.OrderPass.Fills.{
  reconcile_pending_orders-dry, if-either,
}
use claude_code_and_vive_cod.Execution.PositionReconciler.Rows.Dry.{compare_positions-dry}
use claude_code_and_vive_cod.Execution.PositionReconciler.Run.{
  Fetch, listed, unimplemented, failed, Result, World, Run, by_symbol, setup_of, order_setup_of,
  persist_log, commit_positions, order_part, start_session, run_passes, finish, run_fetched,
  reconcile, aborted,
}
use claude_code_and_vive_cod.Execution.PositionReconciler.Runs.{
  SameTables, publish_ws-SameTables, publish_ws-logs,
}

module _ {F C : Type 0} where
  order_part-dry :
      (x : Run F C) (b : Bool) (gaps : List Gap) (repairs : List Repair) (w : World F C)
      → x.dry_run ≡ true
      → SameTables (order_part x b gaps repairs w).0 w
        × ((order_part x b gaps repairs w).0.recorded ≡ w.recorded)
        × ((order_part x b gaps repairs w).1.repairs ≡ repairs)
  unfolding order_part
  order_part-dry x false gaps repairs w dry = ((refl, refl, refl, refl), refl, refl)
  order_part-dry x true gaps repairs w dry =
      let same = reconcile_pending_orders-dry (order_setup_of x) _ dry in
      ((refl, refl, same.0, same.1), refl, same.2)

  commit_positions-dry :
      (x : Run F C) (s : Session F C) (w : World F C)
      → x.dry_run ≡ true
      → SameTables (commit_positions x s w) w × ((commit_positions x s w).recorded ≡ s.recorded)
  unfolding commit_positions
  commit_positions-dry x s w dry = rw dry ((refl, refl, refl, refl), refl)

  -- Nothing is written but the log and the alert.
  abbrev pub WritesNothing : World F C × Result → World F C → Type 0
  WritesNothing after w =
      SameTables after.0 w × (after.0.recorded ≡ w.recorded) × (after.1.repairs ≡ [])

  run_passes-dry :
      (x : Run F C) (broker : Dict (Position F)) (gaps : List Gap) (w : World F C)
      → x.dry_run ≡ true
      → WritesNothing (finish x (run_passes x broker gaps w)) w
  unfolding run_passes persist_log start_session
  run_passes-dry x broker gaps w dry =
      let s = compare_positions (setup_of x) x.snapshot broker (start_session x gaps w) in
      let looked =
        compare_positions-dry (setup_of x) x.snapshot broker (start_session x gaps w) dry in
      let c = commit_positions-dry x s w dry in
      let o =
        order_part-dry x (x.dry_run || x.commits) s.gaps s.repairs (commit_positions x s w) dry in
      let p = publish_ws-SameTables _ _ in
      let q = publish_ws-logs _ _ in
      (
        (
          p.0 ∙ (o.0.0 ∙ c.0.0),
          p.1 ∙ (o.0.1 ∙ c.0.1),
          p.2 ∙ (o.0.2 ∙ c.0.2),
          p.3 ∙ (o.0.3 ∙ c.0.3),
        ),
        q.1 ∙ (o.1 ∙ (c.1 ∙ looked.2)),
        o.2 ∙ looked.1,
      )

  run_fetched-dry :
      (x : Run F C) (f : Fetch F) (w : World F C)
      → x.dry_run ≡ true
      → WritesNothing (run_fetched x f w) w
  unfolding run_fetched persist_log
  run_fetched-dry x (listed ps) w dry = run_passes-dry x (by_symbol [] ps) [] w dry
  run_fetched-dry x unimplemented w dry = run_passes-dry x [] _ w dry
  run_fetched-dry x failed w dry =
      (publish_ws-SameTables aborted _, (publish_ws-logs aborted _).1, refl)

  -- A dry run, whatever the broker answers, leaves the positions, the orders, the fills, the
  -- cancels sent and the recorded and applied corporate actions as they were, and reports no
  -- repair.
  pub reconcile-dry :
      (x : Run F C) (w : World F C) → x.dry_run ≡ true → WritesNothing (reconcile x w) w
  unfolding reconcile
  reconcile-dry x w dry =
      if-either (λ r. WritesNothing r w) w.is_busy ((refl, refl, refl, refl), refl, refl)
        (run_fetched-dry x x.fetch w dry)
