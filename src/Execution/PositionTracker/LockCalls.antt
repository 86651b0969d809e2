-- ===== src/Execution/PositionTracker/LockCalls.antt =====
-- The calls of backend/execution/position_tracker.py, and which keep a symbol's lock in its lifetime.
use claude_code_and_vive_cod.Prelude.{
  ℕ, zero, pos, ◌+◌, ◌≤◌, ◌≡◌, refl, Bool, true, false, Option, none, some, List, [], ◌∷◌, String,
  str_eq, eq_iff, arith, inl, inr, Bool-cases,
}
use claude_code_and_vive_cod.Dict.{Dict, lookup, insert, erase, lookup-insert, lookup-erase}
use claude_code_and_vive_cod.Floats.{FloatOps}
use claude_code_and_vive_cod.Brokers.Models.{Position}
use claude_code_and_vive_cod.Risk.Sellable.{BrokerPosition}
use claude_code_and_vive_cod.Risk.HaltPolicy.{find_position}
use claude_code_and_vive_cod.Risk.Sellable.{sellable_from_position}
use claude_code_and_vive_cod.Values.{int_value}
use claude_code_and_vive_cod.Execution.PositionTracker.{
  Tracker, Fill, Gate, pending_lock_ttl, lock_expired, lock_held, ca_blocked, can_place_order,
  try_mark_pending, mark_pending, unmark_pending, on_fill, buy_filled, sell_filled, claim_ca_exit,
  claim_priced, claim_match, claim_sellable, update_prices, price_found, place_unlocked,
}

-- The lock was taken at `start` or later.
abbrev pub IsSince : ℕ → Option ℕ → Type 0
IsSince start none = ⊥
IsSince start (some ts) = start ≤ ts

pub data TrackerCall (F : Type 0) : Type 0 where
  can_place : String → ℕ → TrackerCall F
  try_mark : String → ℕ → ℕ → TrackerCall F
  mark : String → ℕ → TrackerCall F
  unmark : String → TrackerCall F
  fill : Fill F → TrackerCall F
  claim : String → Option (List BrokerPosition) → ℕ → ℕ → TrackerCall F
  prices : Dict F → TrackerCall F
  restore : List (Position F) → TrackerCall F

-- The calls that give a symbol's lock back.
abbrev pub releases : {F : Type 0} → String → TrackerCall F → Bool
releases symbol (unmark j) = str_eq j symbol
releases symbol (fill f) = str_eq f.symbol symbol
releases symbol _ = false

-- The call's clock readings lie in the lifetime of a lock taken at `start`.
abbrev pub InLifetime : {F : Type 0} → ℕ → TrackerCall F → Type 0
InLifetime start (can_place j now) = now ≤ start + pending_lock_ttl
InLifetime start (try_mark j tested marked) = (tested ≤ start + pending_lock_ttl) × (start ≤ marked)
InLifetime start (mark j now) = start ≤ now
InLifetime start (claim j positions tested marked) =
    (tested ≤ start + pending_lock_ttl) × (start ≤ marked)
InLifetime start _ = Unit

module _ (start : ℕ) (symbol : String) where
  pub insert-IsSince :
      (j : String) (now : ℕ) (d : Dict ℕ)
      → start ≤ now
      → IsSince start (lookup symbol d)
      → IsSince start (lookup symbol (insert j now d))
  insert-IsSince j now d h s =
      rw (lookup-insert j symbol now d)
        (elim (Bool-cases (str_eq j symbol)) [ inl e ↦ rw e h | inr e ↦ rw e s ])

  pub erase-IsSince :
      (j : String) (d : Dict ℕ)
      → str_eq j symbol ≡ false
      → IsSince start (lookup symbol d)
      → IsSince start (lookup symbol (erase j d))
  erase-IsSince j d e s = rw (lookup-erase j symbol d) (rw e s)

  live-held :
      (o : Option ℕ) (now : ℕ)
      → IsSince start o
      → now ≤ start + pending_lock_ttl
      → lock_held o now ≡ true
  live-held none now s h = absurd s
  live-held (some ts) now s h = ground arith

  module _ {F : Type 0} where
    -- The lock of the symbol was taken at `start` or later, and is there.
    abbrev pub IsLocked : Tracker F → Type 0
    IsLocked t = IsSince start (lookup symbol t.pending_symbols)

    live_at :
        (j : String) (now : ℕ) (t : Tracker F) (ts : ℕ)
        → lookup j t.pending_symbols ≡ some ts
        → now ≤ start + pending_lock_ttl
        → IsLocked t
        → str_eq j symbol ≡ true
        → lock_expired ts now ≡ false
    live_at j now t ts e h s same =
        let e' : lookup symbol t.pending_symbols ≡ some ts = ground (arith, eq_iff j symbol) in
        let since : IsSince start (some ts) = rw e' at s in ground arith

    unlocked-IsLocked :
        (j : String) (now : ℕ) (t : Tracker F) (o : Option ℕ)
        → lookup j t.pending_symbols ≡ o
        → now ≤ start + pending_lock_ttl
        → IsLocked t
        → IsLocked (place_unlocked j now t o).1
    unfolding place_unlocked
    unlocked-IsLocked j now t none e h s = s
    unlocked-IsLocked j now t (some ts) e h s = elim (Bool-cases (str_eq j symbol)) [
      | inl same ↦
          let live : lock_expired ts now ≡ false = live_at j now t ts e h s same in rw live s
      | inr other ↦ elim (Bool-cases (lock_expired ts now)) [
        | inl old ↦ rw old (erase-IsSince j t.pending_symbols other s)
        | inr live ↦ rw live s
      ]
    ]

    pub can_place-IsLocked :
        (ca : Gate) (j : String) (now : ℕ) (t : Tracker F)
        → now ≤ start + pending_lock_ttl
        → IsLocked t
        → IsLocked (can_place_order ca j now t).1
    unfolding can_place_order
    can_place-IsLocked ca j now t h s = elim (Bool-cases (ca_blocked ca j)) [
      | inl blocked ↦ rw blocked s
      | inr free ↦ rw free (unlocked-IsLocked j now t (lookup j t.pending_symbols) refl h s)
    ]

    pub try_mark-IsLocked :
        (ca : Gate) (j : String) (tested marked : ℕ) (t : Tracker F)
        → start ≤ marked
        → IsLocked t
        → IsLocked (try_mark_pending ca j tested marked t).1
    unfolding try_mark_pending mark_pending
    try_mark-IsLocked ca j tested marked t h s = elim (Bool-cases (ca_blocked ca j)) [
      | inl blocked ↦ rw blocked s
      | inr free ↦ elim (Bool-cases (lock_held (lookup j t.pending_symbols) tested)) [
        | inl held ↦ rw (free, held) s
        | inr open_lock ↦ rw (free, open_lock) (insert-IsSince j marked t.pending_symbols h s)
      ]
    ]

    price_found-IsLocked :
        (j : String) (price : F) (o : Option (Position F)) (t : Tracker F)
        → IsLocked t
        → IsLocked (price_found j price o t)
    unfolding price_found
    price_found-IsLocked j price none t s = s
    price_found-IsLocked j price (some p) t s = s

    pub prices-IsLocked : (d : Dict F) (t : Tracker F) → IsLocked t → IsLocked (update_prices d t)
    unfolding update_prices
    prices-IsLocked [] t s = s
    prices-IsLocked ((j, price) ∷ d) t s =
        prices-IsLocked d (price_found j price (lookup j t.positions) t)
          (price_found-IsLocked j price (lookup j t.positions) t s)

  module _ {F : Type 0} ⦃fl : FloatOps F⦄ where
    pub fill-IsLocked :
        (f : Fill F) (t : Tracker F)
        → str_eq f.symbol symbol ≡ false
        → IsLocked t
        → IsLocked (on_fill f t).1
    unfolding on_fill buy_filled sell_filled unmark_pending
    fill-IsLocked f t e s = ground (arith, erase-IsSince f.symbol t.pending_symbols e s)

    priced-IsLocked :
        (j : String) (m : BrokerPosition) (q tested marked : ℕ) (t : Tracker F)
        → start ≤ marked
        → IsLocked t
        → IsLocked (claim_priced j m q tested marked t).1
    unfolding claim_priced
    priced-IsLocked j m q tested marked t h s =
        elim (Bool-cases (lock_held (lookup j t.pending_symbols) tested)) [
          | inl held ↦ rw held s
          | inr free ↦ rw free (insert-IsSince j marked t.pending_symbols h s)
        ]

    sellable-IsLocked :
        (j : String) (m : BrokerPosition) (o : Option ℕ) (tested marked : ℕ) (t : Tracker F)
        → start ≤ marked
        → IsLocked t
        → IsLocked (claim_sellable j m o tested marked t).1
    unfolding claim_sellable
    sellable-IsLocked j m none tested marked t h s = s
    sellable-IsLocked j m (some q) tested marked t h s =
        ground (arith, priced-IsLocked j m q tested marked t h s)

    pub claim-IsLocked :
        (j : String) (ps : Option (List BrokerPosition)) (tested marked : ℕ) (t : Tracker F)
        → start ≤ marked
        → IsLocked t
        → IsLocked (claim_ca_exit j ps tested marked t).1
    unfolding claim_ca_exit
    claim-IsLocked j none tested marked t h s = s
    claim-IsLocked j (some ps) tested marked t h s = match-IsLocked (find_position j ps)
      where
        match-IsLocked : (o : Option BrokerPosition) → IsLocked (claim_match j o tested marked t).1
        match-IsLocked none = s
        match-IsLocked (some m) =
            sellable-IsLocked j m (sellable_from_position m (int_value (pos zero)) false).qty tested
              marked t h s
