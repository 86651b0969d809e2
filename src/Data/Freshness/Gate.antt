-- ===== src/Data/Freshness/Gate.antt =====
-- `FreshnessGate` of backend/data/freshness_gate.py, and `TradingGate` of
-- backend/data/stale_detector.py. The halt callback is seen by the results that it is given; a
-- callback that raises changes nothing. A timestamp that `_coerce_utc` cannot read is `none`.
use claude_code_and_vive_cod.Prelude.{
  ℕ, Bool, true, false, Option, none, some, List, ◌∷◌, ◌&&◌, if◌then◌else◌,
}
use claude_code_and_vive_cod.Data.Freshness.{
  StaleState, fresh, warning, stale, unknown_state, StalenessResult, Feed, Detector, check,
  record_update,
}

-- `StaleFeedError`, or the result.
pub data Verdict : Type 0 where
  blocked_by : StalenessResult → Verdict
  passed : StalenessResult → Verdict

pub record FreshnessGate : Type 0 where
  pub detector : Detector
  -- the results that the halt callback was given, the latest first
  pub halts : List StalenessResult

abbrev pub by_state : Bool → StaleState → Bool
by_state block_on_unknown stale = true
by_state block_on_unknown unknown_state = block_on_unknown
by_state block_on_unknown fresh = false
by_state block_on_unknown warning = false

unfoldable pub is_blocking : Bool → StalenessResult → Bool
is_blocking block_on_unknown r = by_state block_on_unknown r.state

abbrev pub halts_after : StaleState → StalenessResult → List StalenessResult → List StalenessResult
halts_after stale r hs = r ∷ hs
halts_after fresh r hs = hs
halts_after warning r hs = hs
halts_after unknown_state r hs = hs

unfoldable pub finalize : Bool → Bool → StalenessResult → FreshnessGate → Verdict × FreshnessGate
finalize block_on_unknown raise_on_block r g = (
  (if is_blocking block_on_unknown r && raise_on_block then blocked_by r else passed r),
  record g { halts = halts_after r.state r g.halts },
)

abbrev pub without_timestamp : StalenessResult → StalenessResult
without_timestamp r = record r { state = unknown_state; age_seconds = none }

unfoldable pub validate_timestamp :
    Bool → Bool → Bool → Feed → Option ℕ → ℕ → FreshnessGate → Verdict × FreshnessGate
validate_timestamp block_on_unknown raise_on_block raised f none now g =
    let (prior, d) = check raised f now g.detector in
    finalize block_on_unknown raise_on_block (without_timestamp prior) (record g { detector = d })
validate_timestamp block_on_unknown raise_on_block raised f (some ts) now g =
    let (r, d) = record_update raised f ts now g.detector in
    finalize block_on_unknown raise_on_block r (record g { detector = d })

unfoldable pub assert_tradeable :
    Bool → Bool → Bool → Feed → ℕ → FreshnessGate → Verdict × FreshnessGate
assert_tradeable block_on_unknown raise_on_block raised f now g =
    let (r, d) = check raised f now g.detector in
    finalize block_on_unknown raise_on_block r (record g { detector = d })
