-- ===== src/Execution/IdempotencyTests.antt =====
-- The theorems of the idempotency store at concrete orders.
use claude_code_and_vive_cod.Prelude.{
  ℕ, ◌≡◌, ◌↔◌, refl, true, false, none, List, [], ◌∷◌, ◌++◌, arith, pos,
}
use claude_code_and_vive_cod.Text.{codes, text_eq}
use claude_code_and_vive_cod.Brokers.Models.{Order, filled}
use claude_code_and_vive_cod.Execution.PositionReconciler.OrderPass.{Lookup, raised}
use claude_code_and_vive_cod.Execution.Idempotency.{
  Hashing, OrderParams, Store, Backends, fingerprint, bucket_of, from_order_params, acquire_lock,
}
use claude_code_and_vive_cod.Execution.Idempotency.Keys.{SameIntent, key_of, fingerprint-SameIntent}
use claude_code_and_vive_cod.Execution.Idempotency.Locks.{
  StoreCall, acquire, release, save, run, acquire_lock_excludes, expired_lock_lost,
}
use claude_code_and_vive_cod.Execution.Idempotency.Verifier.{with_execution_lock}

abbrev hashing : Hashing ℕ
hashing = record { digest = λ c. c.sym ++ c.side ++ c.tb; price_cents = λ p. pos p }

abbrev params : ℕ → OrderParams ℕ
params minute = record {
  strategy_run_id = codes "42";
  symbol = codes "AAPL";
  side = codes "buy";
  qty = pos 10;
  price = 15000;
  order_type = codes "limit";
  date = codes "2026-01-05";
  hour = 9;
  minute = minute;
}

fingerprint-SameIntent_example :
    (fingerprint hashing (key_of hashing 4 (params 1))
      ≡ fingerprint hashing (key_of hashing 4 (params 3)))
    ↔ SameIntent hashing 4 (params 1) (params 3)
unfolding from_order_params claude_code_and_vive_cod.Execution.Idempotency.time_bucket bucket_of
fingerprint-SameIntent_example =
    fingerprint-SameIntent hashing 4 (params 1) (params 3) (λ e. refl) refl refl

abbrev empty : Store
empty = record { records = λ fp. none; locks = λ fp. none; rows = [] }

abbrev at : ℕ → Backends
at now = record { now = now; redis_up = true; db_up = true }

abbrev between : List StoreCall
between =
    acquire (at 110) (codes "ab") 60
    ∷ release (at 115) (codes "cd")
    ∷ save 60 (at 120) (codes "ab") (codes "B1") (codes "executing")
    ∷ []

acquire_lock_excludes_example :
    acquire_lock
      (at 130)
      (codes "ab")
      60
      (run between (acquire_lock (at 100) (codes "ab") 60 empty).1)
    ≡ (false, run between (acquire_lock (at 100) (codes "ab") 60 empty).1)
unfolding acquire_lock text_eq
acquire_lock_excludes_example =
    acquire_lock_excludes (at 100) (at 130) (codes "ab") 60 60 between empty refl refl refl
      (omega arith, (refl, (tt, tt))) (omega arith)

expired_lock_lost_example :
    let run =
      with_execution_lock
        (at 100)
        (at 170)
        (codes "ab")
        60
        (λ acquired t. acquire_lock (at 165) (codes "ab") 60 t)
        empty in
    (run.0 ≡ true) × ((acquire_lock (at 175) (codes "ab") 60 run.1).0 ≡ true)
expired_lock_lost_example =
    expired_lock_lost (at 100) (at 165) (at 170) (at 175) (codes "ab") 60 empty refl refl refl refl
      refl (omega arith)

abbrev filled_order : Order ℕ
filled_order = record {
  id = "B7";
  symbol = "AAPL";
  side = "buy";
  qty = pos 10;
  price = 150;
  status = filled;
  filled_qty = pos 10;
  avg_fill_price = 150;
  cumulative_filled_qty = none;
}

abbrev no_answer : Lookup ℕ
no_answer = raised
