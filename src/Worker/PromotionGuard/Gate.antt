-- ===== src/Worker/PromotionGuard/Gate.antt =====
-- What a run that opens the live-trading gate is.
use claude_code_and_vive_cod.Prelude.{
  ℕ, ◌+◌, ◌-◌, ◌≤◌, ◌<◌, ◌≡◌, ◌⊎◌, true, none, some, List, map, String, str_eq, eq_iff, arith, inl,
  inr, Option-cases,
}
use claude_code_and_vive_cod.Worker.PromotionGuard.{
  max, Run, paper_run_min, run_window, paper_run_qualifies, paper_gate_status, UptimeRow,
  row_interval, uptime_of_run,
}
use claude_code_and_vive_cod.Worker.PromotionGuard.Coverage.{covered_time-window}

-- The run is known to be a paper run with a fill, and it has a window of at least 28 days, which
-- ends when it was stopped, or now if it is active.
pub record IsProven (r : Run) (now filled : ℕ) : Type 0 where
  pub on_paper : r.kis_env ≡ some "paper"
  pub has_fills : 0 < filled
  pub started : ℕ
  pub has_started : r.started_at ≡ some started
  pub long_enough :
      ((r.is_active ≡ true) × (r.stopped_at ≡ none) × (started + paper_run_min ≤ now))
      ⊎ ((stopped : ℕ) × (r.stopped_at ≡ some stopped) × (started + paper_run_min ≤ stopped))

paper_text :
    (r : Run) (env : String)
    → r.kis_env ≡ some env
    → str_eq env "paper" ≡ true
    → r.kis_env ≡ some "paper"
paper_text r env e h = ground (arith, eq_iff env "paper")

gate-parts :
    (r : Run) (filled uptime : ℕ)
    → paper_gate_status r filled uptime ≡ none
    → (r.kis_env ≡ some "paper") × (0 < filled) × (paper_run_qualifies r uptime ≡ true)
unfolding paper_gate_status
gate-parts r filled uptime h = elim (Option-cases r.kis_env) [
  | inl missing ↦ ground arith
  | inr (env, e) ↦ ground (arith, paper_text r env e)
]

qualifies-parts :
    (r : Run) (uptime : ℕ)
    → paper_run_qualifies r uptime ≡ true
    → ((s : ℕ) × (r.started_at ≡ some s))
      × (((r.stopped_at ≡ none) × (r.is_active ≡ true)) ⊎ ((t : ℕ) × (r.stopped_at ≡ some t)))
      × (paper_run_min ≤ uptime)
unfolding paper_run_qualifies
qualifies-parts r uptime h = elim (Option-cases r.started_at) [
  | inl missing ↦ ground arith
  | inr (s, e) ↦ elim (Option-cases r.stopped_at) [
    | inl running ↦ ((s, e), inl (running, ground arith), ground arith)
    | inr (t, f) ↦ ((s, e), inr (t, f), ground arith)
  ]
]

uptime_running :
    (grace now s : ℕ) (r : Run) (rows : List UptimeRow)
    → r.started_at ≡ some s
    → r.stopped_at ≡ none
    → uptime_of_run grace now r rows ≤ max now s - s
unfolding uptime_of_run run_window
uptime_running grace now s r rows e f =
    rw (e, f) (covered_time-window (map (row_interval grace now) rows) s (max now s))

uptime_stopped :
    (grace now s t : ℕ) (r : Run) (rows : List UptimeRow)
    → r.started_at ≡ some s
    → r.stopped_at ≡ some t
    → uptime_of_run grace now r rows ≤ max t s - s
unfolding uptime_of_run run_window
uptime_stopped grace now s t r rows e f =
    rw (e, f) (covered_time-window (map (row_interval grace now) rows) s (max t s))

at_least : (u s e : ℕ) → paper_run_min ≤ u → u ≤ max e s - s → s + paper_run_min ≤ e
at_least u s e low high = ground arith

-- A run whose rows open the gate is a paper run with a fill, and the time from its start to its
-- stop, or to now while it is active, is at least 28 days, whatever the rows claim.
pub paper_gate-IsProven :
    (grace now filled : ℕ) (r : Run) (rows : List UptimeRow)
    → paper_gate_status r filled (uptime_of_run grace now r rows) ≡ none
    → IsProven r now filled
paper_gate-IsProven grace now filled r rows h =
    let u = uptime_of_run grace now r rows in
    let (paper, fills, qualifies) = gate-parts r filled u h in
    let ((s, e), ending, long) = qualifies-parts r u qualifies in
    record {
      on_paper = paper;
      has_fills = fills;
      started = s;
      has_started = e;
      long_enough = elim ending [
        | inl (running, active) ↦
            inl
              (active, running, at_least u s now long (uptime_running grace now s r rows e running))
        | inr (t, f) ↦ inr (t, f, at_least u s t long (uptime_stopped grace now s t r rows e f))
      ];
    }
