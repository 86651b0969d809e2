-- ===== src/Execution/Idempotency.antt =====
-- backend/execution/idempotency.py: the keys of order intents, and the store of their fingerprints
-- over a cache and a table that may fail. A backend that is not configured behaves as one that
-- raises at every call, and each call says which of the two answer.
pub mod Verifier
pub mod Keys
pub mod Records
pub mod Locks
use claude_code_and_vive_cod.Prelude.{
  ℕ, ◌+◌, ◌*◌, ◌/◌, ◌%◌, Bool, true, false, ◌&&◌, Option, none, some, List, [], ◌∷◌, ◌++◌, ℤ, ltb,
  ◌==◌, if◌then◌else◌, suc, zero,
}
use claude_code_and_vive_cod.Text.{Text, codes, text_eq}

pub record IdempotencyKey (P : Type 0) : Type 0 where
  pub strategy_run_id : Text
  pub symbol : Text
  pub side : Text
  pub qty : ℤ
  pub price : P
  pub order_type : Text
  pub date : Text
  pub time_bucket : Text

-- What the canonical JSON holds; its key `v` is always 1.
pub record Canonical : Type 0 where
  pub s : Text
  pub sym : Text
  pub side : Text
  pub qty : ℤ
  pub price_cents : ℤ
  pub ot : Text
  pub d : Text
  pub tb : Text

-- `json.dumps` and SHA-256 in one, and `round(price * 100)`.
pub record Hashing (P : Type 0) : Type 0 where
  pub digest : Canonical → Text
  pub price_cents : P → ℤ

module _ {P : Type 0} where
  unfoldable pub canonical : Hashing P → IdempotencyKey P → Canonical
  canonical h k = record {
    s = k.strategy_run_id;
    sym = k.symbol;
    side = k.side;
    qty = k.qty;
    price_cents = h.price_cents k.price;
    ot = k.order_type;
    d = k.date;
    tb = k.time_bucket;
  }

  unfoldable pub fingerprint : Hashing P → IdempotencyKey P → Text
  fingerprint h k = h.digest (canonical h k)

-- `f"{n:02d}"` of a number below 100
abbrev pub two_digits : ℕ → Text
two_digits n = (48 + n / 10) ∷ (48 + n % 10) ∷ []

unfoldable pub bucket_of : ℕ → ℕ → ℕ
bucket_of minute bucket_minutes = minute / bucket_minutes * bucket_minutes

unfoldable pub time_bucket : ℕ → ℕ → ℕ → Text
time_bucket hour minute bucket_minutes =
    two_digits hour ++ (58 ∷ two_digits (bucket_of minute bucket_minutes))

-- The order's parameters, and the day, hour and minute of `_now`.
pub record OrderParams (P : Type 0) : Type 0 where
  pub strategy_run_id : Text
  pub symbol : Text
  pub side : Text
  pub qty : ℤ
  pub price : P
  pub order_type : Text
  pub date : Text
  pub hour : ℕ
  pub minute : ℕ

-- `none` is the division by zero.
unfoldable pub from_order_params : {P : Type 0} → OrderParams P → ℕ → Option (IdempotencyKey P)
from_order_params p zero = none
from_order_params p (suc n) = some record {
  strategy_run_id = p.strategy_run_id;
  symbol = p.symbol;
  side = p.side;
  qty = p.qty;
  price = p.price;
  order_type = p.order_type;
  date = p.date;
  time_bucket = time_bucket p.hour p.minute (suc n);
}

pub record ExecutionRecord : Type 0 where
  pub order_id : Text
  pub status : Text

-- A cache entry answers until its time is over.
pub record Entry : Type 0 where
  pub value : Text
  pub expires : ℕ

-- A row of the audit log of the store's event type.
pub record AuditRow : Type 0 where
  pub key : Text
  pub fingerprint : Text
  pub order_id : Text
  pub status : Text

-- The cache's records and locks, which their prefixes keep apart, and the rows, the oldest first.
pub record Store : Type 0 where
  pub records : Text → Option Entry
  pub locks : Text → Option Entry
  pub rows : List AuditRow

-- The time of a call in seconds, and which backends answer it.
pub record Backends : Type 0 where
  pub now : ℕ
  pub redis_up : Bool
  pub db_up : Bool

abbrev pub put : Text → Option Entry → (Text → Option Entry) → Text → Option Entry
put k e m j = if text_eq k j then e else m j

-- The entry that the cache still has.
abbrev pub live : ℕ → Option Entry → Option Entry
live now none = none
live now (some e) = if ltb now e.expires then some e else none

-- `val.partition(":")`, without the separator.
unfoldable pub partition : Text → Text × Text
partition [] = ([], [])
partition (c ∷ cs) = let (a, b) = partition cs in if c == 58 then ([], cs) else (c ∷ a, b)

abbrev pub take : ℕ → Text → Text
take zero t = []
take (suc n) [] = []
take (suc n) (c ∷ cs) = c ∷ take n cs

-- `_DB_KEY_LEN`
abbrev pub db_key_len : ℕ
db_key_len = 50

unfoldable pub db_key : Text → Text
db_key fp = take db_key_len fp

unfoldable pub first_row : Text → List AuditRow → Option AuditRow
first_row k [] = none
first_row k (r ∷ rs) = if text_eq r.key k then some r else first_row k rs

-- The row's update keeps the fingerprint that it was inserted with.
unfoldable pub write_rows : Text → Text → Text → List AuditRow → List AuditRow
write_rows fp order_id status [] =
    record { key = db_key fp; fingerprint = fp; order_id = order_id; status = status } ∷ []
write_rows fp order_id status (r ∷ rs) =
    let rest = write_rows fp order_id status rs in
    if text_eq r.key (db_key fp)
    then record r { order_id = order_id; status = status } ∷ rs
    else r ∷ rest

unfoldable pub db_set : Backends → Text → Text → Text → Store → Store
db_set b fp order_id status s =
    if b.db_up then record s { rows = write_rows fp order_id status s.rows } else s

abbrev as_record : Text → Option AuditRow → Option ExecutionRecord
as_record fp none = none
as_record fp (some r) =
    if text_eq r.fingerprint fp
    then some record { order_id = r.order_id; status = r.status }
    else none

unfoldable pub db_get : Backends → Text → Store → Option ExecutionRecord
db_get b fp s = if b.db_up then as_record fp (first_row (db_key fp) s.rows) else none

-- The cache answers, and the lifetime is one that it takes: it rejects an entry of none.
abbrev pub takes_entry : Backends → ℕ → Bool
takes_entry b ttl = b.redis_up && ltb 0 ttl

-- `setex`; `ttl` is the store's.
unfoldable pub set : ℕ → Backends → Text → Text → Text → Store → Store
set ttl b fp order_id status s =
    if takes_entry b ttl
    then record s {
      records =
          put fp (some record { value = order_id ++ (58 ∷ status); expires = b.now + ttl })
            s.records;
    }
    else db_set b fp order_id status s

abbrev parsed : Text → ExecutionRecord
parsed value = let (oid, st) = partition value in record { order_id = oid; status = st }

abbrev or_else : Option ExecutionRecord → Option Entry → Option ExecutionRecord
or_else fallback none = fallback
or_else fallback (some e) = some (parsed e.value)

unfoldable pub get : Backends → Text → Store → Option ExecutionRecord
get b fp s =
    if b.redis_up then or_else (db_get b fp s) (live b.now (s.records fp)) else db_get b fp s

abbrev pub take_lock : Text → ℕ → Store → Option Entry → Bool × Store
take_lock fp expires s none = (
  true,
  record s { locks = put fp (some record { value = codes "1"; expires = expires }) s.locks },
)
take_lock fp expires s (some e) = (false, s)

-- `SET NX EX`; without the cache, or if it rejects the entry, the lock is given to everyone.
unfoldable pub acquire_lock : Backends → Text → ℕ → Store → Bool × Store
acquire_lock b fp ttl s =
    if takes_entry b ttl then take_lock fp (b.now + ttl) s (live b.now (s.locks fp)) else (true, s)

unfoldable pub release_lock : Backends → Text → Store → Store
release_lock b fp s = if b.redis_up then record s { locks = put fp none s.locks } else s
