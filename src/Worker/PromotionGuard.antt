-- ===== src/Worker/PromotionGuard.antt =====
-- backend/worker/promotion_guard.py: how long a paper run was up, and whether it opens the gate.
-- Instants are whole microseconds; the database rows are arguments. A run's environment is what
-- `run_kis_env` reads of its config.
pub mod Coverage
pub mod Gate
use claude_code_and_vive_cod.Prelude.{
  ℕ, ◌+◌, ◌-◌, ◌*◌, Bool, true, false, not, ◌&&◌, Option, none, some, List, [], ◌∷◌, map, String,
  str_eq, ltb, leb, ◌==◌, is_none, if◌then◌else◌,
}

abbrev pub max : ℕ → ℕ → ℕ
max a b = if ltb a b then b else a

abbrev pub min : ℕ → ℕ → ℕ
min a b = if ltb b a then b else a

abbrev pub Interval : Type 0
Interval = ℕ × ℕ

-- The order of tuples.
abbrev pub before : Interval → Interval → Bool
before (a, b) (c, d) = if ltb a c then true else a == c && leb b d

unfoldable pub insert_sorted : Interval → List Interval → List Interval
insert_sorted i [] = i ∷ []
insert_sorted i (j ∷ js) =
    let rest = insert_sorted i js in if before i j then i ∷ j ∷ js else j ∷ rest

-- `sorted`
unfoldable pub sort : List Interval → List Interval
sort [] = []
sort (i ∷ is) = insert_sorted i (sort is)

abbrev pub clip : ℕ → ℕ → Interval → Interval
clip start end (a, b) = (max a start, min b end)

-- The loop with a current interval, and the total so far.
unfoldable pub merge_into : ℕ → ℕ → ℕ → List Interval → ℕ
merge_into x y total [] = total + (y - x)
merge_into x y total ((a, b) ∷ is) =
    let skipped = merge_into x y total is in
    let opened = merge_into a b (total + (y - x)) is in
    let widened = merge_into x (max y b) total is in
    if leb b a then skipped else if ltb y a then opened else widened

-- The loop before the first interval that is not empty.
unfoldable pub merge : List Interval → ℕ
merge [] = 0
merge ((a, b) ∷ is) = let skipped = merge is in if leb b a then skipped else merge_into a b 0 is

unfoldable pub covered_time : List Interval → ℕ → ℕ → ℕ
covered_time intervals start end = merge (sort (map (clip start end) intervals))

-- Twenty-eight days.
abbrev pub paper_run_min : ℕ
paper_run_min = 28 * 86400 * 1000000

pub record Run : Type 0 where
  pub started_at : Option ℕ
  pub stopped_at : Option ℕ
  pub is_active : Bool
  pub kis_env : Option String

unfoldable pub run_window : Run → ℕ → Option Interval
run_window r now = elim r.started_at [
  | none ↦ none
  | some started ↦ some (started, max (elim r.stopped_at [ none ↦ now | some t ↦ t ]) started)
]

unfoldable pub paper_run_qualifies : Run → ℕ → Bool
paper_run_qualifies r uptime =
    if is_none r.started_at
    then false
    else if is_none r.stopped_at && not r.is_active
    then false
    else leb paper_run_min uptime

pub data GateReason : Type 0 where
  env_unknown env_not_paper duration no_fills : GateReason

-- `none` is `(True, None)`.
unfoldable pub paper_gate_status : Run → ℕ → ℕ → Option GateReason
paper_gate_status r filled_orders uptime = elim r.kis_env [
  | none ↦ some env_unknown
  | some env ↦
      if not (str_eq env "paper")
      then some env_not_paper
      else if not (paper_run_qualifies r uptime)
      then some duration
      else if filled_orders == 0
      then some no_fills
      else none
]

-- A row of the uptime table: when a boot began, its clean end, and its last heartbeat.
pub record UptimeRow : Type 0 where
  pub boot_at : ℕ
  pub ended_at : Option ℕ
  pub last_beat_at : ℕ

-- What a row covers; `grace` is `UPTIME_GRACE`.
unfoldable pub row_interval : ℕ → ℕ → UptimeRow → Interval
row_interval grace now row =
    (row.boot_at, elim row.ended_at [ some t ↦ t | none ↦ min (row.last_beat_at + grace) now ])

-- `uptime_by_run`, for one run and its rows.
unfoldable pub uptime_of_run : ℕ → ℕ → Run → List UptimeRow → ℕ
uptime_of_run grace now r rows = elim (run_window r now) [
  | none ↦ 0
  | some (a, b) ↦ covered_time (map (row_interval grace now) rows) a b
]
