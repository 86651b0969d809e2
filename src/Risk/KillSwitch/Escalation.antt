-- ===== src/Risk/KillSwitch/Escalation.antt =====
-- Sequences of triggers and resumes, and the state that they leave.
use claude_code_and_vive_cod.Prelude.{
  ◌≡◌, refl, inl, inr, ℕ, ◌+◌, ◌<◌, Bool, true, false, Option, none, some, List, [], ◌∷◌, String,
  arith, ltb, Bool-cases, All,
}
use claude_code_and_vive_cod.Floats.{FloatOps}
use claude_code_and_vive_cod.Risk.KillSwitch.{
  TradingState, running, warning, halted, state_rank, Severity, warn, critical, target_state,
  KillTrigger, KillTriggerEngine, Report, check, escalate, fire, handle_trigger, record_event,
  announce, KillSwitch, CheckReply, cooling, evaluate_resume, settle_resume, resume, check_order,
  evaluate, new, amend, cancel,
}
use mathlib.Core.Path.{subst}

-- A call of the switch, with its time.
pub data SwitchCall (F : Type 0) : Type 0 where
  reports : ℕ → Report F → SwitchCall F
  resumes : ℕ → String → List CheckReply → SwitchCall F

module _ {F : Type 0} ⦃fl : FloatOps F⦄ (g : KillTriggerEngine F) (cooldown : ℕ) where
  unfoldable pub step : SwitchCall F → KillSwitch → KillSwitch
  step (reports t r) s = handle_trigger t (check g r) s
  step (resumes t who cs) s = (resume cooldown t who cs s).1

  unfoldable pub run : List (SwitchCall F) → KillSwitch → KillSwitch
  run [] s = s
  run (c ∷ cs) s = run cs (step c s)

-- The switch is halted since `t`.
pub record IsHaltedSince (t : ℕ) (s : KillSwitch) : Type 0 where
  pub is_halted : s.state ≡ halted
  pub since : s.halted_at ≡ some t

-- The call is not a resume that may be approved: it comes before the cooldown of the halt at `t` is
-- over.
abbrev pub TooEarly : {F : Type 0} → ℕ → ℕ → SwitchCall F → Type 0
TooEarly cooldown t (reports now r) = Unit
TooEarly cooldown t (resumes now who cs) = now < t + cooldown

fire-IsHaltedSince :
    (t now : ℕ) (k : KillTrigger) (s : KillSwitch)
    → IsHaltedSince t s
    → IsHaltedSince t (fire now k s)
unfolding fire record_event
fire-IsHaltedSince t now k s h =
    let no : ltb (state_rank s.state) (state_rank (target_state k.severity)) ≡ false =
      rw h.is_halted (top k.severity) in
    rw no (record { is_halted = h.is_halted; since = h.since })
  where
    top : (v : Severity) → ltb 2 (state_rank (target_state v)) ≡ false
    top warn = refl
    top critical = refl

trigger-IsHaltedSince :
    (t now : ℕ) (k : Option KillTrigger) (s : KillSwitch)
    → IsHaltedSince t s
    → IsHaltedSince t (handle_trigger now k s)
unfolding handle_trigger
trigger-IsHaltedSince t now none s h = h
trigger-IsHaltedSince t now (some k) s h = fire-IsHaltedSince t now k s h

early_refused :
    (cooldown t now : ℕ) (cs : List CheckReply)
    → now < t + cooldown
    → evaluate_resume cooldown (some t) now cs ≡ cooling
unfolding evaluate_resume
early_refused cooldown t now cs h = ground arith

resume-IsHaltedSince :
    (cooldown t now : ℕ) (who : String) (cs : List CheckReply) (s : KillSwitch)
    → now < t + cooldown
    → IsHaltedSince t s
    → IsHaltedSince t (resume cooldown now who cs s).1
unfolding resume settle_resume record_event
resume-IsHaltedSince cooldown t now who cs s early h =
    rw (h.since, early_refused cooldown t now cs early)
      (record { is_halted = h.is_halted; since = refl })

-- The state that a trigger asks for, unless it is lower.
abbrev pub raised : Option KillTrigger → TradingState → TradingState
raised none now = now
raised (some k) now = escalate (target_state k.severity) now

module _ {F : Type 0} ⦃fl : FloatOps F⦄ (g : KillTriggerEngine F) (cooldown : ℕ) where
  step-IsHaltedSince :
      (t : ℕ) (c : SwitchCall F) (s : KillSwitch)
      → TooEarly cooldown t c
      → IsHaltedSince t s
      → IsHaltedSince t (step g cooldown c s)
  unfolding step
  step-IsHaltedSince t (reports now r) s early h = trigger-IsHaltedSince t now (check g r) s h
  step-IsHaltedSince t (resumes now who cs) s early h =
      resume-IsHaltedSince cooldown t now who cs s early h

  run-IsHaltedSince :
      (t : ℕ) (cs : List (SwitchCall F)) (s : KillSwitch)
      → All (TooEarly cooldown t) cs
      → IsHaltedSince t s
      → IsHaltedSince t (run g cooldown cs s)
  unfolding run
  run-IsHaltedSince t [] s early h = h
  run-IsHaltedSince t (c ∷ cs) s (now, later) h =
      run-IsHaltedSince t cs (step g cooldown c s) later (step-IsHaltedSince t c s now h)

  -- A switch that is halted since t is halted since t after any calls whose resumes come before
  -- the cooldown is over, whatever the checks say; it then blocks new and amended orders, and
  -- allows a cancel.
  pub run_halted :
      (t : ℕ) (cs : List (SwitchCall F)) (s : KillSwitch) (allow_close : Bool)
      → All (TooEarly cooldown t) cs
      → IsHaltedSince t s
      → let s' = run g cooldown cs s in
        IsHaltedSince t s'
        × (check_order allow_close new s' ≡ false)
        × (check_order allow_close amend s' ≡ false)
        × (check_order allow_close cancel s' ≡ true)
  unfolding check_order evaluate
  run_halted t cs s allow_close early h =
      let h' = run-IsHaltedSince t cs s early h in
      (h', rw h'.is_halted refl, rw h'.is_halted refl, rw h'.is_halted refl)

  -- The highest state that the reports ask for, from a state.
  abbrev pub highest : TradingState → List (ℕ × Report F) → TradingState
  highest now [] = now
  highest now ((t, r) ∷ rs) = highest (raised (check g r) now) rs

  unfoldable pub report_all : List (ℕ × Report F) → KillSwitch → KillSwitch
  report_all [] s = s
  report_all ((t, r) ∷ rs) s = report_all rs (step g cooldown (reports t r) s)

announce-state :
    (t : ℕ) (v : Severity) (to : TradingState) (s : KillSwitch)
    → (announce t v to s).state ≡ s.state
unfolding announce
announce-state t v halted s = refl
announce-state t v running s = refl
announce-state t v warning s = refl

pub fire-state :
    (t : ℕ) (k : KillTrigger) (s : KillSwitch)
    → (fire t k s).state ≡ escalate (target_state k.severity) s.state
unfolding fire record_event escalate
fire-state t k s =
    elim (Bool-cases (ltb (state_rank s.state) (state_rank (target_state k.severity)))) [
      | inl up ↦ simp (up, announce-state)
      | inr same ↦ rw same refl
    ]

trigger-state :
    (t : ℕ) (k : Option KillTrigger) (s : KillSwitch)
    → (handle_trigger t k s).state ≡ raised k s.state
unfolding handle_trigger
trigger-state t none s = refl
trigger-state t (some k) s = fire-state t k s

module _ {F : Type 0} ⦃fl : FloatOps F⦄ (g : KillTriggerEngine F) (cooldown : ℕ) where
  -- After any reports and no resume, the state is the highest of the one at the start and of
  -- those that the reports' triggers ask for.
  pub report_all-highest :
      (rs : List (ℕ × Report F)) (s : KillSwitch)
      → (report_all g cooldown rs s).state ≡ highest g cooldown s.state rs
  unfolding report_all step
  report_all-highest [] s = refl
  report_all-highest ((t, r) ∷ rs) s =
      subst (λ now. (report_all g cooldown ((t, r) ∷ rs) s).state ≡ highest g cooldown now rs)
        (trigger-state t (check g r) s) (report_all-highest rs (handle_trigger t (check g r) s))
