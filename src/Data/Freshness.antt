-- ===== src/Data/Freshness.antt =====
-- backend/data/stale_detector.py: when a feed was last heard of, and how fresh that is. Times and
-- spans are numbers of one unit; a feed is what `_resolve` makes of a key and a tier. The texts, and
-- the rows of the audit log but for their event and key, are left out.
pub mod Gate
pub mod Passing
pub mod Failures
use claude_code_and_vive_cod.Prelude.{
  ℕ, ◌+◌, ◌-◌, Bool, true, false, ◌&&◌, ◌||◌, Option, none, some, List, ◌∷◌, String, ◌==◌, ltb, leb,
  if◌then◌else◌,
}
use claude_code_and_vive_cod.Dict.{Dict, lookup, insert}

pub data StaleState : Type 0 where
  fresh warning stale unknown_state : StaleState

pub data FeedStatus : Type 0 where
  connected disconnected unknown_feed : FeedStatus

pub record SourceHealth : Type 0 where
  pub status : FeedStatus
  pub last_update : Option ℕ
  pub consecutive_failures : ℕ

abbrev pub new_source : SourceHealth
new_source = record { status = unknown_feed; last_update = none; consecutive_failures = 0 }

pub record StalenessResult : Type 0 where
  pub state : StaleState
  pub key : String
  pub age_seconds : Option ℕ
  pub status : FeedStatus
  pub consecutive_failures : ℕ

-- `FreshnessChecker`
pub record Checker : Type 0 where
  pub warn_after : ℕ
  pub stale_after : ℕ

-- `max(0.0, …)` of the difference
unfoldable pub age_seconds : Option ℕ → ℕ → Option ℕ
age_seconds none now = none
age_seconds (some t) now = some (now - t)

abbrev pub by_age : Checker → Option ℕ → StaleState
by_age c none = unknown_state
by_age c (some age) =
    if ltb c.stale_after age then stale else if ltb c.warn_after age then warning else fresh

unfoldable pub classify : Checker → Option ℕ → ℕ → StaleState
classify c last now = by_age c (age_seconds last now)

pub record Feed : Type 0 where
  pub storage_key : String
  pub checker : Checker

pub data EventType : Type 0 where
  became : StaleState → EventType
  recovered : EventType

-- The service with its tracker. The audit rows are the latest first; a recovery hook fires with the
-- row that says `recovered`.
pub record Detector : Type 0 where
  pub sources : Dict SourceHealth
  pub last_state : Dict StaleState
  pub audits : List (EventType × String)

abbrev pub or_new : Option SourceHealth → SourceHealth
or_new none = new_source
or_new (some h) = h

unfoldable pub get_health : String → Detector → SourceHealth
get_health key d = or_new (lookup key d.sources)

abbrev pub set_health : String → SourceHealth → Detector → Detector
set_health key h d = record d { sources = insert key h d.sources }

abbrev pub heard_at : ℕ → SourceHealth
heard_at ts = record { status = connected; last_update = some ts; consecutive_failures = 0 }

abbrev pub failed_once : ℕ → SourceHealth → SourceHealth
failed_once threshold h = record h {
  consecutive_failures = h.consecutive_failures + 1;
  status = if leb threshold (h.consecutive_failures + 1) then disconnected else h.status;
}

abbrev pub cut_off : SourceHealth → SourceHealth
cut_off h = record h { status = disconnected }

abbrev state_rank : StaleState → ℕ
state_rank fresh = 0
state_rank warning = 1
state_rank stale = 2
state_rank unknown_state = 3

abbrev was : StaleState → Option StaleState → Bool
was s none = false
was s (some t) = state_rank s == state_rank t

abbrev transition_events :
    StaleState → Option StaleState → String → List (EventType × String) → List (EventType × String)
transition_events fresh none key es = es
transition_events fresh (some s) key es = if was fresh (some s) then es else (recovered, key) ∷ es
transition_events s prev key es = if was s prev then es else (became s, key) ∷ es

unfoldable pub handle_transition : StalenessResult → Detector → Detector
handle_transition r d = record d {
  last_state = insert r.key r.state d.last_state;
  audits = transition_events r.state (lookup r.key d.last_state) r.key d.audits;
}

abbrev pub state_by : FeedStatus → Checker → Option ℕ → ℕ → StaleState
state_by disconnected c last now = stale
state_by connected c last now = classify c last now
state_by unknown_feed c last now = classify c last now

abbrev pub result_of : Feed → SourceHealth → StaleState → Option ℕ → StalenessResult
result_of f h s age = record {
  state = s;
  key = f.storage_key;
  age_seconds = age;
  status = h.status;
  consecutive_failures = h.consecutive_failures;
}

-- `raised` says that the evaluation raised.
unfoldable pub evaluation : Bool → Feed → ℕ → Detector → StalenessResult
evaluation true f now d = result_of f new_source stale none
evaluation false f now d =
    let h = get_health f.storage_key d in
    result_of f h (state_by h.status f.checker h.last_update now) (age_seconds h.last_update now)

unfoldable pub check : Bool → Feed → ℕ → Detector → StalenessResult × Detector
check raised f now d = let r = evaluation raised f now d in (r, handle_transition r d)

unfoldable pub record_update : Bool → Feed → ℕ → ℕ → Detector → StalenessResult × Detector
record_update raised f ts now d = check raised f now (set_health f.storage_key (heard_at ts) d)

unfoldable pub record_failure : ℕ → Bool → Feed → ℕ → Detector → StalenessResult × Detector
record_failure threshold raised f now d =
    check raised f now
      (set_health f.storage_key (failed_once threshold (get_health f.storage_key d)) d)

unfoldable pub record_disconnect : Bool → Feed → ℕ → Detector → StalenessResult × Detector
record_disconnect raised f now d =
    check raised f now (set_health f.storage_key (cut_off (get_health f.storage_key d)) d)
