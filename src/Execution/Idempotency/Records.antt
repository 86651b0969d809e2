-- ===== src/Execution/Idempotency/Records.antt =====
-- What the store returns of what was recorded.
use claude_code_and_vive_cod.Prelude.{
  ℕ, ◌+◌, ◌<◌, ◌≡◌, refl, inl, inr, Bool, true, false, Option, none, some, List, [], ◌∷◌, ◌++◌,
  ◌||◌, ◌⊎◌, arith, Bool-cases, ltb, ◌==◌,
}
use claude_code_and_vive_cod.Text.{Text, text_eq, text_eq_iff}
use claude_code_and_vive_cod.Execution.Idempotency.{
  AuditRow, Store, Backends, partition, first_row, write_rows, db_set, db_get, db_key, as_record,
  set, get, live, takes_entry,
}

pub text_eq_self : (t : Text) → text_eq t t ≡ true
text_eq_self t = (text_eq_iff t t).1 refl

-- No colon, which ends an order id in the cache's value.
unfoldable pub has_colon : Text → Bool
has_colon [] = false
has_colon (c ∷ cs) = c == 58 || has_colon cs

pub partition-append : (a b : Text) → has_colon a ≡ false → partition (a ++ (58 ∷ b)) ≡ (a, b)
unfolding partition has_colon
partition-append [] b h = refl
partition-append (c ∷ cs) b h = elim (Bool-cases (c == 58)) [
  | inl colon ↦ cc (rw colon at h)
  | inr other ↦ rw (other, partition-append cs b (rw other at h)) refl
]

-- The row of a key belongs to the fingerprint, or there is none yet.
abbrev pub OwnsRow : Text → Option AuditRow → Type 0
OwnsRow fp none = Unit {0}
OwnsRow fp (some r) = r.fingerprint ≡ fp

as_record-write_rows :
    (fp order_id status : Text) (rows : List AuditRow)
    → OwnsRow fp (first_row (db_key fp) rows)
    → as_record fp (first_row (db_key fp) (write_rows fp order_id status rows))
      ≡ some (record { order_id = order_id; status = status })
unfolding first_row write_rows
as_record-write_rows fp order_id status [] h = rw (text_eq_self (db_key fp), text_eq_self fp) refl
as_record-write_rows fp order_id status (r ∷ rs) h = elim (Bool-cases (text_eq r.key (db_key fp))) [
  | inl same ↦
      let owner : r.fingerprint ≡ fp = rw same at h in
      rw (same, same, (text_eq_iff r.fingerprint fp).1 owner) refl
  | inr other ↦ rw (other, other) (as_record-write_rows fp order_id status rs (rw other at h))
]

module _ (ttl : ℕ) (writing reading : Backends) (fp order_id status : Text) (s : Store) where
  -- The value went to the cache and is still there.
  get-set_cache :
      takes_entry writing ttl ≡ true
      → reading.redis_up ≡ true
      → reading.now < writing.now + ttl
      → has_colon order_id ≡ false
      → get reading fp (set ttl writing fp order_id status s)
        ≡ some (record { order_id = order_id; status = status })
  unfolding get set
  get-set_cache w r young plain =
      let fresh : ltb reading.now (writing.now + ttl) ≡ true = ground arith in
      rw (w, r, text_eq_self fp, fresh, partition-append order_id status plain) refl

  -- The value went to the table, and the cache has none or does not answer.
  get-set_table :
      takes_entry writing ttl ≡ false
      → writing.db_up ≡ true
      → reading.db_up ≡ true
      → (reading.redis_up ≡ false) ⊎ (live reading.now (s.records fp) ≡ none)
      → OwnsRow fp (first_row (db_key fp) s.rows)
      → get reading fp (set ttl writing fp order_id status s)
        ≡ some (record { order_id = order_id; status = status })
  unfolding get set db_set db_get
  get-set_table w wd rd (inl down) own =
      rw (w, wd, rd, down) (as_record-write_rows fp order_id status s.rows own)
  get-set_table w wd rd (inr gone) own = elim (Bool-cases reading.redis_up) [
    | inl up ↦ rw (w, wd, gone, rd, up) (as_record-write_rows fp order_id status s.rows own)
    | inr down ↦ rw (w, wd, rd, down) (as_record-write_rows fp order_id status s.rows own)
  ]

-- The call that writes and the one that reads meet at a backend that has the record.
abbrev pub Meets : ℕ → Backends → Backends → Text → Store → Type 0
Meets ttl writing reading fp s =
    ((takes_entry writing ttl ≡ true)
      × (reading.redis_up ≡ true)
      × (reading.now < writing.now + ttl))
    ⊎ ((takes_entry writing ttl ≡ false)
        × (writing.db_up ≡ true)
        × (reading.db_up ≡ true)
        × ((reading.redis_up ≡ false) ⊎ (live reading.now (s.records fp) ≡ none))
        × OwnsRow fp (first_row (db_key fp) s.rows))

pub get-set :
    (ttl : ℕ) (writing reading : Backends) (fp order_id status : Text) (s : Store)
    → has_colon order_id ≡ false
    → Meets ttl writing reading fp s
    → get reading fp (set ttl writing fp order_id status s)
      ≡ some (record { order_id = order_id; status = status })
get-set ttl writing reading fp order_id status s plain (inl (w, r, young)) =
    get-set_cache ttl writing reading fp order_id status s w r young plain
get-set ttl writing reading fp order_id status s plain (inr (w, wd, rd, gone, own)) =
    get-set_table ttl writing reading fp order_id status s w wd rd gone own
