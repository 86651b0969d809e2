-- ===== src/Data/Freshness/Failures.antt =====
-- How long the gate of backend/data/freshness_gate.py goes on to trust a feed whose polls fail.
use claude_code_and_vive_cod.Prelude.{
  ◌≡◌, refl, ap, ◌∙◌, inl, inr, ℕ, zero, suc, ◌+◌, ◌<◌, Bool, true, false, not, ◌&&◌, Option, some,
  List, [], ◌∷◌, String, ltb, leb, arith, str_eq, eq_iff, eq_refl, if◌then◌else◌, Bool-cases,
}
use claude_code_and_vive_cod.Dict.{lookup-insert}
use claude_code_and_vive_cod.Data.Freshness.{
  FeedStatus, connected, disconnected, SourceHealth, Checker, age_seconds, classify, Feed, Detector,
  get_health, set_health, heard_at, failed_once, check, record_update, record_failure,
  handle_transition,
}
use claude_code_and_vive_cod.Data.Freshness.Gate.{FreshnessGate, assert_tradeable}
use claude_code_and_vive_cod.Data.Freshness.Passing.{
  is_passed, timely, may_pass, assert_tradeable-health, by_age-timely, not_twice,
}

-- Failed polls, the earliest first: whether the evaluation raised, the feed, and the time.
unfoldable pub fail_all : ℕ → List (Bool × (Feed × ℕ)) → Detector → Detector
fail_all threshold [] d = d
fail_all threshold ((raised, (f, now)) ∷ more) d =
    fail_all threshold more (record_failure threshold raised f now d).1

-- Those of one feed.
unfoldable pub failures_of : String → List (Bool × (Feed × ℕ)) → ℕ
failures_of key [] = 0
failures_of key ((raised, (f, now)) ∷ more) =
    let rest = failures_of key more in if str_eq f.storage_key key then suc rest else rest

abbrev fail_times : ℕ → ℕ → SourceHealth → SourceHealth
fail_times threshold zero h = h
fail_times threshold (suc n) h = fail_times threshold n (failed_once threshold h)

set_health-health :
    (key k : String) (h : SourceHealth) (d : Detector)
    → get_health k (set_health key h d) ≡ (if str_eq key k then h else get_health k d)
unfolding get_health
set_health-health key k h d = elim (Bool-cases (str_eq key k)) [
  | inl same ↦ rw (lookup-insert key k h d.sources, same) refl
  | inr other ↦ rw (lookup-insert key k h d.sources, other) refl
]

check-health :
    (raised : Bool) (f : Feed) (now : ℕ) (k : String) (d : Detector)
    → get_health k (check raised f now d).1 ≡ get_health k d
unfolding check handle_transition get_health
check-health raised f now k d = refl

same_health :
    (key k : String) (d : Detector) → str_eq key k ≡ true → get_health key d ≡ get_health k d
same_health key k d e = ap (λ x. get_health x d) ((eq_iff key k).0 e)

counted :
    (threshold n : ℕ) (key k : String) (d : Detector)
    → fail_times threshold n
        (if str_eq key k then failed_once threshold (get_health key d) else get_health k d)
      ≡ fail_times threshold (if str_eq key k then suc n else n) (get_health k d)
counted threshold n key k d = elim (Bool-cases (str_eq key k)) [
  | inl same ↦
      rw same
        (ap (λ x. fail_times threshold n (failed_once threshold x)) (same_health key k d same))
  | inr other ↦ rw other refl
]

fail_all-health :
    (threshold : ℕ) (k : String) (fs : List (Bool × (Feed × ℕ))) (d : Detector)
    → get_health k (fail_all threshold fs d)
      ≡ fail_times threshold (failures_of k fs) (get_health k d)
unfolding fail_all failures_of record_failure
fail_all-health threshold k [] d = refl
fail_all-health threshold k ((raised, (f, now)) ∷ more) d =
    let h = failed_once threshold (get_health f.storage_key d) in
    let d' = set_health f.storage_key h d in
    fail_all-health threshold k more (record_failure threshold raised f now d).1
    ∙ ap (fail_times threshold (failures_of k more))
        (check-health raised f now k d' ∙ set_health-health f.storage_key k h d)
    ∙ counted threshold (failures_of k more) f.storage_key k d

set_health_self :
    (k : String) (h : SourceHealth) (d : Detector) → get_health k (set_health k h d) ≡ h
set_health_self k h d = set_health-health k k h d ∙ rw (eq_refl k) refl

abbrev source : FeedStatus → Option ℕ → ℕ → SourceHealth
source s l m = record { status = s; last_update = l; consecutive_failures = m }

failed-disconnected :
    (threshold m : ℕ) (l : Option ℕ)
    → failed_once threshold (source disconnected l m) ≡ source disconnected l (m + 1)
failed-disconnected threshold m l = elim (Bool-cases (leb threshold (m + 1))) [
  | inl y ↦ rw y refl
  | inr x ↦ rw x refl
]

failed-cut :
    (threshold m : ℕ) (l : Option ℕ)
    → leb threshold (m + 1) ≡ true
    → failed_once threshold (source connected l m) ≡ source disconnected l (m + 1)
failed-cut threshold m l y = rw y refl

failed-kept :
    (threshold m : ℕ) (l : Option ℕ)
    → leb threshold (m + 1) ≡ false
    → failed_once threshold (source connected l m) ≡ source connected l (m + 1)
failed-kept threshold m l x = rw x refl

one_more : (m n : ℕ) → (m + 1) + n ≡ m + suc n
one_more m n = omega arith

none_before : (n : ℕ) → 0 + n ≡ n
none_before n = omega arith

cut_off_for_good :
    (b : Bool) (threshold n m : ℕ) (c : Checker) (l : Option ℕ) (now : ℕ)
    → may_pass b c (fail_times threshold n (source disconnected l m)) now ≡ false
cut_off_for_good b threshold zero m c l now = refl
cut_off_for_good b threshold (suc n) m c l now =
    ap (λ h. may_pass b c (fail_times threshold n h) now) (failed-disconnected threshold m l)
    ∙ cut_off_for_good b threshold n (m + 1) c l now

false_and : (x y : Bool) → x ≡ false → false ≡ (x && y)
false_and x y h = rw h refl

true_and : (x y : Bool) → x ≡ true → y ≡ (x && y)
true_and x y h = rw h refl

fail_times-trusted :
    (b : Bool) (threshold n m : ℕ) (c : Checker) (ts now : ℕ)
    → ltb m threshold ≡ true
    → may_pass b c (fail_times threshold n (source connected (some ts) m)) now
      ≡ (ltb (m + n) threshold && timely c ts now)
unfolding classify age_seconds
fail_times-trusted b threshold zero m c ts now h =
    ap not (by_age-timely b c ts now)
    ∙ not_twice (timely c ts now)
    ∙ true_and (ltb (m + 0) threshold) (timely c ts now) (ground arith)
fail_times-trusted b threshold (suc n) m c ts now h = elim (Bool-cases (leb threshold (m + 1))) [
  | inl y ↦
      ap (λ h. may_pass b c (fail_times threshold n h) now) (failed-cut threshold m (some ts) y)
      ∙ cut_off_for_good b threshold n (m + 1) c (some ts) now
      ∙ false_and (ltb (m + suc n) threshold) (timely c ts now) (ground arith)
  | inr x ↦
      ap (λ h. may_pass b c (fail_times threshold n h) now) (failed-kept threshold m (some ts) x)
      ∙ fail_times-trusted b threshold n (m + 1) c ts now (ground arith)
      ∙ ap (λ k. ltb k threshold && timely c ts now) (one_more m n)
]

-- After an update of a feed, and failed polls of any feeds since, a check of the feed that raises
-- on a block and whose evaluation goes through lets an order pass exactly if fewer polls of that
-- feed failed than the threshold, which is positive, and the update's time lies no further back
-- than the span after which the feed is stale.
pub assert_tradeable-fail_all :
    (b : Bool) (threshold : ℕ) (raised : Bool) (f : Feed) (ts heard now : ℕ)
    (fs : List (Bool × (Feed × ℕ))) (g : FreshnessGate)
    → 0 < threshold
    → is_passed
        (assert_tradeable b true false f now (record g {
          detector = fail_all threshold fs (record_update raised f ts heard g.detector).1;
        })).0
      ≡ (ltb (failures_of f.storage_key fs) threshold && timely f.checker ts now)
unfolding record_update
assert_tradeable-fail_all b threshold raised f ts heard now fs g positive =
    let k = f.storage_key in
    let updated = set_health k (heard_at ts) g.detector in
    let d = (check raised f heard updated).1 in
    let heard_health : get_health k d ≡ heard_at ts =
      check-health raised f heard k updated ∙ set_health_self k (heard_at ts) g.detector in
    assert_tradeable-health b f now (record g { detector = fail_all threshold fs d })
    ∙ ap (λ h. may_pass b f.checker h now)
        (fail_all-health threshold k fs d
          ∙ ap (fail_times threshold (failures_of k fs)) heard_health)
    ∙ fail_times-trusted b threshold (failures_of k fs) 0 f.checker ts now (ground arith)
    ∙ ap (λ n. ltb n threshold && timely f.checker ts now) (none_before (failures_of k fs))
