-- ===== src/Risk/KillSwitch/Resume.antt =====
-- When a resume is approved, and what may come between its two locked parts.
use claude_code_and_vive_cod.Prelude.{
  ◌≡◌, ◌≢◌, ◌↔◌, ◌⊎◌, refl, inl, inr, ℕ, ◌+◌, ◌≤◌, true, false, Option, none, some, List, [], ◌∷◌,
  String, arith, All,
}
use claude_code_and_vive_cod.Risk.KillSwitch.{
  TradingState, running, warning, halted, critical, KillTrigger, fire, record_event, escalate,
  KillSwitch, CheckReply, check_raises, check_says, RecoveryReason, approved, cooling, check_error,
  check_failed, run_checks, evaluate_resume, settle_resume, resume,
}
use claude_code_and_vive_cod.Risk.KillSwitch.Escalation.{fire-state}

-- The check returned a true verdict.
abbrev pub Passes : CheckReply → Type 0
Passes check_raises = ⊥
Passes (check_says b) = b ≡ true

-- The cooldown is over, or no halt was recorded.
abbrev pub CooledDown : ℕ → Option ℕ → ℕ → Type 0
CooledDown cooldown none now = Unit
CooledDown cooldown (some t) now = t + cooldown ≤ now

checks_pass : (cs : List CheckReply) → run_checks cs ≡ approved → All Passes cs
unfolding run_checks
checks_pass [] h = tt
checks_pass (check_raises ∷ cs) h = cc
checks_pass (check_says false ∷ cs) h = cc
checks_pass (check_says true ∷ cs) h = (refl, checks_pass cs h)

pass_checks : (cs : List CheckReply) → All Passes cs → run_checks cs ≡ approved
unfolding run_checks
pass_checks [] h = refl
pass_checks (check_raises ∷ cs) (h, hs) = absurd h
pass_checks (check_says false ∷ cs) (h, hs) = cc
pass_checks (check_says true ∷ cs) (h, hs) = pass_checks cs hs

approved_means :
    (cooldown : ℕ) (since : Option ℕ) (now : ℕ) (cs : List CheckReply)
    → evaluate_resume cooldown since now cs ≡ approved
    → CooledDown cooldown since now × All Passes cs
unfolding evaluate_resume
approved_means cooldown none now cs h = (tt, checks_pass cs h)
approved_means cooldown (some t) now cs h =
    let e : (t + cooldown ≤ now) × (run_checks cs ≡ approved) = ground arith in
    (e.0, checks_pass cs e.1)

means_approved :
    (cooldown : ℕ) (since : Option ℕ) (now : ℕ) (cs : List CheckReply)
    → CooledDown cooldown since now
    → All Passes cs
    → evaluate_resume cooldown since now cs ≡ approved
unfolding evaluate_resume
means_approved cooldown none now cs c h = pass_checks cs h
means_approved cooldown (some t) now cs c h = let e = pass_checks cs h in ground arith

refused_keeps :
    (now : ℕ) (who : String) (from : TradingState) (r : RecoveryReason) (s : KillSwitch)
    → r ≢ approved
    → let s' = settle_resume now who from r s in
      (s'.state ≡ s.state) × (s'.halted_at ≡ s.halted_at) × (s'.effects ≡ s.effects)
unfolding settle_resume record_event
refused_keeps now who from approved s h = absurd (h refl)
refused_keeps now who from cooling s h = (refl, refl, refl)
refused_keeps now who from check_error s h = (refl, refl, refl)
refused_keeps now who from check_failed s h = (refl, refl, refl)

approved_runs :
    (now : ℕ) (who : String) (from : TradingState) (r : RecoveryReason) (s : KillSwitch)
    → r ≡ approved
    → ((settle_resume now who from r s).state ≡ running)
      × ((settle_resume now who from r s).halted_at ≡ none)
unfolding settle_resume record_event
approved_runs now who from r s h = rw h (refl, refl)

-- A resume is approved exactly if the cooldown is over, or no halt was recorded, and every check
-- passes.
pub resume_approved :
    (cooldown now : ℕ) (who : String) (cs : List CheckReply) (s : KillSwitch)
    → ((resume cooldown now who cs s).0 ≡ approved)
      ↔ (CooledDown cooldown s.halted_at now × All Passes cs)
unfolding resume
resume_approved cooldown now who cs s = (
  approved_means cooldown s.halted_at now cs,
  λ (c, h). means_approved cooldown s.halted_at now cs c h,
)

-- An approved resume leaves the switch running with no time of a halt, and one that is refused
-- leaves the state, the time of the halt and the effects as they were.
pub resume-cases :
    (cooldown now : ℕ) (who : String) (cs : List CheckReply) (s : KillSwitch)
    → let (r, s') = resume cooldown now who cs s in
      ((r ≡ approved) × (s'.state ≡ running) × (s'.halted_at ≡ none))
      ⊎ ((r ≢ approved)
          × (s'.state ≡ s.state)
          × (s'.halted_at ≡ s.halted_at)
          × (s'.effects ≡ s.effects))
unfolding resume
resume-cases cooldown now who cs s =
    let r = evaluate_resume cooldown s.halted_at now cs in
    elim (approved_or r) [
      | inl e ↦ let ran = approved_runs now who s.state r s e in inl (e, ran.0, ran.1)
      | inr ne ↦ let kept = refused_keeps now who s.state r s ne in inr (ne, kept.0, kept.1, kept.2)
    ]
  where
    approved_or : (r : RecoveryReason) → (r ≡ approved) ⊎ (r ≢ approved)
    approved_or approved = inl refl
    approved_or cooling = inr (λ e. cc)
    approved_or check_error = inr (λ e. cc)
    approved_or check_failed = inr (λ e. cc)

-- From the warning state, a critical trigger between the two locked parts of a resume halts the
-- switch, and the resume that was approved for the warning state then sets it running, with no
-- time of the halt left.
pub halt_lost :
    (cooldown now : ℕ) (who : String) (cs : List CheckReply) (k : KillTrigger) (s : KillSwitch)
    → s.state ≡ warning
    → s.halted_at ≡ none
    → All Passes cs
    → k.severity ≡ critical
    → let outcome = evaluate_resume cooldown s.halted_at now cs in
      let between = fire now k s in
      let after = settle_resume now who s.state outcome between in
      (between.state ≡ halted) × (after.state ≡ running) × (after.halted_at ≡ none)
unfolding escalate
halt_lost cooldown now who cs k s w none_yet pass crit =
    let ok = means_approved cooldown s.halted_at now cs (rw none_yet tt) pass in
    let settled =
      approved_runs now who s.state (evaluate_resume cooldown s.halted_at now cs) (fire now k s)
        ok in
    (rw (fire-state now k s, w, crit) refl, settled.0, settled.1)
