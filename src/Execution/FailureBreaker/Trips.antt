-- ===== src/Execution/FailureBreaker/Trips.antt =====
-- When the breaker is open.
use claude_code_and_vive_cod.Prelude.{
  ℕ, zero, suc, ◌+◌, ◌≡◌, refl, ◌∙◌, ap, Bool, false, Option, none, some, List, [], ◌∷◌, arith, ltb,
}
use claude_code_and_vive_cod.Execution.FailureBreaker.{
  FailureBreaker, new_breaker, record_failure, record_success, open_since, is_open,
}

-- Failures at these times, one after the other.
unfoldable pub fail_all : ℕ → List ℕ → FailureBreaker → FailureBreaker
fail_all threshold [] b = b
fail_all threshold (t ∷ ts) b = fail_all threshold ts (record_failure threshold t b)

abbrev pub nth : ℕ → List ℕ → Option ℕ
nth n [] = none
nth zero (t ∷ ts) = some t
nth (suc n) (t ∷ ts) = nth n ts

-- A breaker that tripped at this time, if at all, is open now.
abbrev pub open_until : ℕ → ℕ → Option ℕ → Bool
open_until cooldown now none = false
open_until cooldown now (some t) = ltb now (t + cooldown)

tripped-fail_all :
    (threshold t : ℕ) (ts : List ℕ) (b : FailureBreaker)
    → b.tripped_at ≡ some t
    → (fail_all threshold ts b).tripped_at ≡ some t
unfolding fail_all record_failure
tripped-fail_all threshold t [] b h = h
tripped-fail_all threshold t (u ∷ ts) b h =
    tripped-fail_all threshold t ts (record_failure threshold u b) (ground arith)

fail_all-nth :
    (threshold j : ℕ) (ts : List ℕ) (b : FailureBreaker)
    → b.tripped_at ≡ none
    → threshold ≡ b.failures + suc j
    → (fail_all threshold ts b).tripped_at ≡ nth j ts
unfolding fail_all record_failure
fail_all-nth threshold j [] b h e = h
fail_all-nth threshold zero (t ∷ ts) b h e =
    tripped-fail_all threshold t ts (record_failure threshold t b) (ground arith)
fail_all-nth threshold (suc j) (t ∷ ts) b h e =
    fail_all-nth threshold j ts (record_failure threshold t b) (ground arith) (omega arith)

open_since-open_until :
    (cooldown now : ℕ) (o : Option ℕ) (b : FailureBreaker)
    → (open_since cooldown now o b).0 ≡ open_until cooldown now o
unfolding open_since
open_since-open_until cooldown now none b = refl
open_since-open_until cooldown now (some t) b = ground arith

-- After a success and any failures since, the breaker is open exactly from the failure that
-- reached the threshold until the cooldown after it is over: failures that follow do not prolong
-- it.
pub fail_all-open_until :
    (k cooldown now : ℕ) (ts : List ℕ) (b : FailureBreaker)
    → (is_open cooldown now (fail_all (suc k) ts (record_success b))).0
      ≡ open_until cooldown now (nth k ts)
unfolding is_open record_success
fail_all-open_until k cooldown now ts b =
    let after = fail_all (suc k) ts new_breaker in
    open_since-open_until cooldown now after.tripped_at after
    ∙ ap (open_until cooldown now) (fail_all-nth (suc k) k ts new_breaker refl (omega arith))
