-- ===== src/Execution/Idempotency/Keys.antt =====
-- Time buckets, and when two order intents have one fingerprint.
use claude_code_and_vive_cod.Prelude.{
  ℕ, suc, ◌*◌, ◌/◌, ◌<◌, ◌≡◌, ◌↔◌, refl, sym, ap, ◌∙◌, some, arith,
}
use native.Mathlib.Nat.{mul-div_cancel, zero-lt-suc}
use claude_code_and_vive_cod.Execution.Idempotency.{
  IdempotencyKey, Canonical, Hashing, OrderParams, canonical, fingerprint, two_digits, bucket_of,
  time_bucket, from_order_params,
}

two_digits-injective : (a b : ℕ) → two_digits a ≡ two_digits b → a ≡ b
two_digits-injective a b h = ground arith

time_bucket-injective :
    (h m h' m' n : ℕ)
    → time_bucket h m n ≡ time_bucket h' m' n
    → (h ≡ h') × (bucket_of m n ≡ bucket_of m' n)
unfolding time_bucket
time_bucket-injective h m h' m' n e = (
  two_digits-injective h h' (ground arith),
  two_digits-injective (bucket_of m n) (bucket_of m' n) (ground arith),
)

bucket_of-injective :
    (m m' n : ℕ) → bucket_of m (suc n) ≡ bucket_of m' (suc n) → m / suc n ≡ m' / suc n
unfolding bucket_of
bucket_of-injective m m' n e =
    sym (mul-div_cancel (m / suc n) (zero-lt-suc n))
    ∙ (ap (λ (t : ℕ). t / suc n) e ∙ mul-div_cancel (m' / suc n) (zero-lt-suc n))

module _ {P : Type 0} (h : Hashing P) (n : ℕ) where
  -- The intents agree in everything but the price's fractions of a cent and the minute in its bucket.
  abbrev pub SameIntent : OrderParams P → OrderParams P → Type 0
  SameIntent p q =
      (p.strategy_run_id ≡ q.strategy_run_id)
      × (p.symbol ≡ q.symbol)
      × (p.side ≡ q.side)
      × (p.qty ≡ q.qty)
      × (h.price_cents p.price ≡ h.price_cents q.price)
      × (p.order_type ≡ q.order_type)
      × (p.date ≡ q.date)
      × (p.hour ≡ q.hour)
      × (p.minute / suc n ≡ q.minute / suc n)

  abbrev pub key_of : OrderParams P → IdempotencyKey P
  key_of p = record {
    strategy_run_id = p.strategy_run_id;
    symbol = p.symbol;
    side = p.side;
    qty = p.qty;
    price = p.price;
    order_type = p.order_type;
    date = p.date;
    time_bucket = time_bucket p.hour p.minute (suc n);
  }

  canonical-SameIntent :
      (p q : OrderParams P) → canonical h (key_of p) ≡ canonical h (key_of q) → SameIntent p q
  unfolding canonical time_bucket
  canonical-SameIntent p q e =
      let t =
        time_bucket-injective p.hour p.minute q.hour q.minute (suc n)
          (ap (λ (c : Canonical). c.tb) e) in
      (
        ap (λ (c : Canonical). c.s) e,
        ap (λ (c : Canonical). c.sym) e,
        ap (λ (c : Canonical). c.side) e,
        ap (λ (c : Canonical). c.qty) e,
        ap (λ (c : Canonical). c.price_cents) e,
        ap (λ (c : Canonical). c.ot) e,
        ap (λ (c : Canonical). c.d) e,
        t.0,
        bucket_of-injective p.minute q.minute n t.1,
      )

  SameIntent-canonical :
      (p q : OrderParams P) → SameIntent p q → canonical h (key_of p) ≡ canonical h (key_of q)
  unfolding canonical time_bucket bucket_of
  SameIntent-canonical p q (a, b, c, d, e, f, g, i, j) = rw (a, b, c, d, e, f, g, i, j) refl

  -- Two keys that were made with one bucket length, and whose canonical forms do not collide
  -- under the digest, have the same fingerprint exactly if run, symbol, side, quantity, price in
  -- cents, order type, day and hour agree and the minutes lie in the same bucket.
  pub fingerprint-SameIntent :
      (p q : OrderParams P) {k l : IdempotencyKey P}
      → (h.digest (canonical h k) ≡ h.digest (canonical h l) → canonical h k ≡ canonical h l)
      → from_order_params p (suc n) ≡ some k
      → from_order_params q (suc n) ≡ some l
      → (fingerprint h k ≡ fingerprint h l) ↔ SameIntent p q
  unfolding from_order_params fingerprint
  fingerprint-SameIntent p q {k} {l} collision_free made made' =
      let kp : key_of p ≡ k = cc in
      let kq : key_of q ≡ l = cc in
      let forth : fingerprint h k ≡ fingerprint h l → SameIntent p q = λ e.
        canonical-SameIntent p q
          (ap (canonical h) kp ∙ (collision_free e ∙ ap (canonical h) (sym kq))) in
      let back : SameIntent p q → fingerprint h k ≡ fingerprint h l = λ same.
        ap (fingerprint h) (sym kp)
        ∙ (ap h.digest (SameIntent-canonical p q same) ∙ ap (fingerprint h) kq) in
      (forth, back)

-- No bucket starts after the one minute and up to the other.
unfoldable pub Unbroken : ℕ → ℕ → ℕ → Type 0
Unbroken n minute later = (start : ℕ) → minute < start * n → later < start * n
