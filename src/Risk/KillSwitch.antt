-- ===== src/Risk/KillSwitch.antt =====
-- backend/risk/kill_switch.py. Messages and details are left out: no decision reads them. Times are
-- whole seconds. What the switch asks of the database and of the notifier, which may fail without
-- a trace in the switch, is a list of effects, the latest first.
use claude_code_and_vive_cod.Prelude.{
  ℕ, zero, suc, ◌+◌, Bool, true, false, Option, none, some, List, [], ◌∷◌, String, ℤ, ltb, leb_ℤ,
  if◌then◌else◌,
}
use claude_code_and_vive_cod.Floats.{FloatOps}
pub mod Escalation
pub mod Resume

pub data TradingState : Type 0 where
  running warning halted : TradingState

abbrev pub state_rank : TradingState → ℕ
state_rank running = 0
state_rank warning = 1
state_rank halted = 2

pub data KillTriggerType : Type 0 where
  broker_failure consecutive_errors reconciliation_mismatch loss_limit_breach watchdog_failure :
      KillTriggerType

pub data Severity : Type 0 where
  warn critical : Severity

abbrev pub target_state : Severity → TradingState
target_state warn = warning
target_state critical = halted

pub record KillTrigger : Type 0 where
  pub trigger_type : KillTriggerType
  pub severity : Severity

-- The thresholds of the engine.
pub record KillTriggerEngine (F : Type 0) : Type 0 where
  pub broker_warn : ℤ
  pub broker_crit : ℤ
  pub errors_warn : ℤ
  pub errors_crit : ℤ
  pub mismatch_warn : ℤ
  pub mismatch_crit : ℤ
  pub daily_loss_warn : F
  pub daily_loss_crit : F
  pub mdd_warn : F
  pub mdd_crit : F

unfoldable pub by_count : ℤ → ℤ → ℤ → KillTriggerType → Option KillTrigger
by_count value low high t =
    if leb_ℤ high value
    then some (record { trigger_type = t; severity = critical })
    else if leb_ℤ low value
    then some (record { trigger_type = t; severity = warn })
    else none

abbrev breach : Severity → Option KillTrigger
breach s = some (record { trigger_type = loss_limit_breach; severity = s })

-- `check_loss_breach`, with the measured daily result and drawdown.
unfoldable pub check_loss_breach :
    {F : Type 0} → ⦃fl : FloatOps F⦄ → KillTriggerEngine F → F → F → Option KillTrigger
check_loss_breach ⦃fl = fl⦄ g daily mdd =
    if fl.less_eq daily (fl.neg g.daily_loss_crit)
    then breach critical
    else if fl.less_eq mdd (fl.neg g.mdd_crit)
    then breach critical
    else if fl.less_eq daily (fl.neg g.daily_loss_warn)
    then breach warn
    else if fl.less_eq mdd (fl.neg g.mdd_warn)
    then breach warn
    else none

-- The severity is what `_normalize_severity` made of the caller's.
unfoldable pub check_watchdog_failure : Option Severity → Option KillTrigger
check_watchdog_failure none = none
check_watchdog_failure (some s) = some (record { trigger_type = watchdog_failure; severity = s })

-- A `report_*` call.
pub data Report (F : Type 0) : Type 0 where
  broker_failures error_count mismatches : ℤ → Report F
  losses : F → F → Report F
  watchdog : Option Severity → Report F

unfoldable pub check :
    {F : Type 0} → ⦃fl : FloatOps F⦄ → KillTriggerEngine F → Report F → Option KillTrigger
check g (broker_failures n) = by_count n g.broker_warn g.broker_crit broker_failure
check g (error_count n) = by_count n g.errors_warn g.errors_crit consecutive_errors
check g (mismatches n) = by_count n g.mismatch_warn g.mismatch_crit reconciliation_mismatch
check g (losses daily mdd) = check_loss_breach g daily mdd
check g (watchdog s) = check_watchdog_failure s

pub data OrderIntent : Type 0 where
  new amend cancel close_position : OrderIntent

-- `OrderInterceptor.evaluate`: whether the order is allowed.
unfoldable pub evaluate : Bool → TradingState → OrderIntent → Bool
evaluate allow_close running intent = true
evaluate allow_close warning intent = true
evaluate allow_close halted cancel = true
evaluate allow_close halted close_position = allow_close
evaluate allow_close halted new = false
evaluate allow_close halted amend = false

pub record KillEvent : Type 0 where
  pub timestamp : ℕ
  pub trigger_type : Option KillTriggerType
  pub severity : Severity
  pub from_state : TradingState
  pub to_state : TradingState
  pub actor : String

pub data Effect : Type 0 where
  write_halt clear_halt : ℕ → Effect
  notify : Severity → Effect

pub record KillSwitch : Type 0 where
  pub state : TradingState
  pub halted_at : Option ℕ
  pub log : List KillEvent
  pub effects : List Effect

-- `deque(maxlen=n)`, the latest first: a full one loses its oldest element.
abbrev keep : {A : Type 0} → ℕ → List A → List A
keep zero xs = []
keep (suc n) [] = []
keep (suc n) (x ∷ xs) = x ∷ keep n xs

abbrev max_history : ℕ
max_history = 200

unfoldable pub record_event : KillEvent → KillSwitch → KillSwitch
record_event v s = record s { log = keep max_history (v ∷ s.log) }

unfoldable pub escalate : TradingState → TradingState → TradingState
escalate target now = if ltb (state_rank now) (state_rank target) then target else now

-- The effects of a trigger that changed the state, by the state that it led to.
unfoldable pub announce : ℕ → Severity → TradingState → KillSwitch → KillSwitch
announce t sev halted s = record s { effects = notify sev ∷ write_halt t ∷ s.effects }
announce t sev running s = record s { effects = notify sev ∷ s.effects }
announce t sev warning s = record s { effects = notify sev ∷ s.effects }

abbrev pub halt_time : TradingState → ℕ → Option ℕ → Option ℕ
halt_time halted t old = some t
halt_time running t old = old
halt_time warning t old = old

unfoldable pub fire : ℕ → KillTrigger → KillSwitch → KillSwitch
fire t k s =
    let to = escalate (target_state k.severity) s.state in
    let moved = ltb (state_rank s.state) (state_rank (target_state k.severity)) in
    let event : KillEvent = record {
      timestamp = t;
      trigger_type = some k.trigger_type;
      severity = k.severity;
      from_state = s.state;
      to_state = to;
      actor = "kill_switch";
    } in
    let changed = record s { state = to; halted_at = halt_time to t s.halted_at } in
    if moved then announce t k.severity to (record_event event changed) else record_event event s

unfoldable pub handle_trigger : ℕ → Option KillTrigger → KillSwitch → KillSwitch
handle_trigger t none s = s
handle_trigger t (some k) s = fire t k s

-- What a validation check does: raise, or return its verdict.
pub data CheckReply : Type 0 where
  check_raises : CheckReply
  check_says : Bool → CheckReply

pub data RecoveryReason : Type 0 where
  approved cooling check_error check_failed : RecoveryReason

unfoldable pub run_checks : List CheckReply → RecoveryReason
run_checks [] = approved
run_checks (check_raises ∷ cs) = check_error
run_checks (check_says false ∷ cs) = check_failed
run_checks (check_says true ∷ cs) = run_checks cs

-- With the cooldown, the time of the halt, and the time now.
unfoldable pub evaluate_resume : ℕ → Option ℕ → ℕ → List CheckReply → RecoveryReason
evaluate_resume cooldown none now cs = run_checks cs
evaluate_resume cooldown (some t) now cs = if ltb now (t + cooldown) then cooling else run_checks cs

-- The second part of `resume`, after the outcome was found for the state `from`.
unfoldable pub settle_resume : ℕ → String → TradingState → RecoveryReason → KillSwitch → KillSwitch
settle_resume t who from approved s =
    let granted =
      record_event
        (record {
          timestamp = t;
          trigger_type = none;
          severity = warn;
          from_state = from;
          to_state = running;
          actor = who;
        })
        (record s { state = running; halted_at = none }) in
    record granted { effects = notify warn ∷ clear_halt t ∷ granted.effects }
settle_resume t who from _ s =
    record_event
      (record {
        timestamp = t;
        trigger_type = none;
        severity = warn;
        from_state = from;
        to_state = from;
        actor = who;
      })
      s

-- `resume` with nothing in between its reading of the state and its writing.
unfoldable pub resume : ℕ → ℕ → String → List CheckReply → KillSwitch → RecoveryReason × KillSwitch
resume cooldown t who cs s =
    let outcome = evaluate_resume cooldown s.halted_at t cs in
    (outcome, settle_resume t who s.state outcome s)

unfoldable pub check_order : Bool → OrderIntent → KillSwitch → Bool
check_order allow_close intent s = evaluate allow_close s.state intent

-- `_load_initial_state`: halted, at the time of the start, if a risk day in play is halted.
unfoldable pub new_switch : Bool → ℕ → KillSwitch
new_switch day_halted t =
    if day_halted
    then record { state = halted; halted_at = some t; log = []; effects = [] }
    else record { state = running; halted_at = none; log = []; effects = [] }
