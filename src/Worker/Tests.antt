-- ===== src/Worker/Tests.antt =====
-- The promotion guard's theorems at a concrete run.
use claude_code_and_vive_cod.Prelude.{ℕ, ◌*◌, ◌≡◌, refl, ◌&&◌, true, some, none, List, [], ◌∷◌, leb}
use claude_code_and_vive_cod.Worker.PromotionGuard.{
  Interval, Run, UptimeRow, covered_time, paper_gate_status, uptime_of_run,
}
use claude_code_and_vive_cod.Worker.PromotionGuard.Coverage.{count, covered, covered_time-count}
use claude_code_and_vive_cod.Worker.PromotionGuard.Gate.{IsProven, paper_gate-IsProven}

abbrev shifts : List Interval
shifts = (7, 9) ∷ (2, 5) ∷ (4, 6) ∷ []

covered_time-count_example : covered_time shifts 3 8 ≡ count (λ t. leb 3 t && covered shifts t) 8
covered_time-count_example = covered_time-count shifts 3 8

abbrev one_day : ℕ
one_day = 86400 * 1000000

abbrev paper_run : Run
paper_run = record {
  started_at = some one_day;
  stopped_at = none;
  is_active = true;
  kis_env = some "paper";
}

abbrev boots : List UptimeRow
boots =
    record { boot_at = one_day; ended_at = some (20 * one_day); last_beat_at = 20 * one_day }
    ∷ record { boot_at = 20 * one_day; ended_at = none; last_beat_at = 31 * one_day }
    ∷ []

paper_gate-IsProven_example : IsProven paper_run (40 * one_day) 3
unfolding paper_gate_status uptime_of_run
    claude_code_and_vive_cod.Worker.PromotionGuard.paper_run_qualifies
    claude_code_and_vive_cod.Worker.PromotionGuard.run_window covered_time
    claude_code_and_vive_cod.Worker.PromotionGuard.merge
    claude_code_and_vive_cod.Worker.PromotionGuard.sort
    claude_code_and_vive_cod.Worker.PromotionGuard.insert_sorted
    claude_code_and_vive_cod.Worker.PromotionGuard.row_interval
    claude_code_and_vive_cod.Worker.PromotionGuard.merge_into
paper_gate-IsProven_example = paper_gate-IsProven 60 (40 * one_day) 3 paper_run boots refl
