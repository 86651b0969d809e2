-- ===== src/Data/Freshness/Passing.antt =====
-- When the gate of backend/data/freshness_gate.py lets an order through.
use claude_code_and_vive_cod.Prelude.{
  ◌≡◌, refl, ap, ◌∙◌, ℕ, ◌+◌, ◌-◌, Bool, true, false, not, ◌&&◌, Option, none, some, leb, arith,
  if◌then◌else◌,
}
use claude_code_and_vive_cod.Dict.{lookup-insert_self}
use claude_code_and_vive_cod.Data.Freshness.{
  SourceHealth, Checker, age_seconds, by_age, classify, Feed, Detector, get_health, set_health,
  heard_at, state_by, evaluation, check, record_update,
}
use claude_code_and_vive_cod.Data.Freshness.Gate.{
  Verdict, blocked_by, passed, FreshnessGate, by_state, is_blocking, finalize, validate_timestamp,
  assert_tradeable,
}

abbrev pub is_passed : Verdict → Bool
is_passed (blocked_by r) = false
is_passed (passed r) = true

-- Not later than the span after the time.
abbrev pub timely : Checker → ℕ → ℕ → Bool
timely c ts now = leb now (ts + c.stale_after)

pub by_age-timely :
    (b : Bool) (c : Checker) (ts now : ℕ)
    → by_state b (by_age c (some (now - ts))) ≡ not (timely c ts now)
by_age-timely b c ts now = ground arith

if_blocked : (b : Bool) (x y : _) → is_passed (if b && true then blocked_by x else passed y) ≡ not b
if_blocked true x y = refl
if_blocked false x y = refl

pub not_twice : (b : Bool) → not (not b) ≡ b
not_twice true = refl
not_twice false = refl

-- What an answer for a source depends on: whether it was cut off, and when it was heard of.
abbrev pub may_pass : Bool → Checker → SourceHealth → ℕ → Bool
may_pass block_on_unknown c h now =
    not (by_state block_on_unknown (state_by h.status c h.last_update now))

pub assert_tradeable-health :
    (b : Bool) (f : Feed) (now : ℕ) (g : FreshnessGate)
    → is_passed (assert_tradeable b true false f now g).0
      ≡ may_pass b f.checker (get_health f.storage_key g.detector) now
unfolding assert_tradeable check evaluation finalize is_blocking
assert_tradeable-health b f now g = if_blocked _ _ _

evaluation-heard :
    (b raised : Bool) (f : Feed) (ts now : ℕ) (d : Detector)
    → by_state b (evaluation raised f now (set_health f.storage_key (heard_at ts) d)).state
      ≡ not (not raised && timely f.checker ts now)
unfolding evaluation get_health classify age_seconds
evaluation-heard b true f ts now d = refl
evaluation-heard b false f ts now d =
    rw (lookup-insert_self f.storage_key (heard_at ts) d.sources) (by_age-timely b f.checker ts now)

abbrev pub given_in_time : Bool → Bool → Checker → Option ℕ → ℕ → Bool
given_in_time block_on_unknown raised c none now = not block_on_unknown
given_in_time block_on_unknown raised c (some ts) now = not raised && timely c ts now

-- Validating a timestamp, raising on a block, lets the data pass exactly if the evaluation does
-- not raise and the time lies no further back than the span after which the feed is stale,
-- whatever was recorded before; a missing timestamp passes exactly if unknown feeds are
-- configured not to block.
pub validate_timestamp-timely :
    (b raised : Bool) (f : Feed) (ts : Option ℕ) (now : ℕ) (g : FreshnessGate)
    → is_passed (validate_timestamp b true raised f ts now g).0
      ≡ given_in_time b raised f.checker ts now
unfolding validate_timestamp record_update check finalize is_blocking
validate_timestamp-timely b raised f none now g = if_blocked b _ _
validate_timestamp-timely b raised f (some ts) now g =
    if_blocked _ _ _
    ∙ ap not (evaluation-heard b raised f ts now g.detector)
    ∙ not_twice (not raised && timely f.checker ts now)
