-- ===== src/Execution/PositionTracker/Locks.antt =====
-- The pending lock of a symbol over sequences of calls.
use claude_code_and_vive_cod.Prelude.{
  ℕ, ◌+◌, ◌≤◌, ◌≡◌, refl, true, false, Option, none, some, List, [], ◌∷◌, String, eq_iff, arith,
}
use claude_code_and_vive_cod.Dict.{lookup, lookup-insert}
use claude_code_and_vive_cod.Floats.{FloatOps}
use claude_code_and_vive_cod.Execution.PositionTracker.{
  Tracker, Gate, pending_lock_ttl, lock_expired, can_place_order, try_mark_pending, mark_pending,
  unmark_pending, on_fill, claim_ca_exit, update_prices, restore_positions, place_unlocked,
}
use claude_code_and_vive_cod.Execution.PositionTracker.LockCalls.{
  IsSince, TrackerCall, can_place, try_mark, mark, unmark, fill, claim, prices, restore, releases,
  InLifetime, insert-IsSince, erase-IsSince, IsLocked, can_place-IsLocked, try_mark-IsLocked,
  prices-IsLocked, fill-IsLocked, claim-IsLocked,
}

module _ {F : Type 0} ⦃fl : FloatOps F⦄ (ca : Gate) where
  unfoldable pub step : TrackerCall F → Tracker F → Tracker F
  step (can_place j now) t = (can_place_order ca j now t).1
  step (try_mark j tested marked) t = (try_mark_pending ca j tested marked t).1
  step (mark j now) t = mark_pending j now t
  step (unmark j) t = unmark_pending j t
  step (fill f) t = (on_fill f t).1
  step (claim j ps tested marked) t = (claim_ca_exit j ps tested marked t).1
  step (prices d) t = update_prices d t
  step (restore ps) t = restore_positions ps t

  unfoldable pub run : List (TrackerCall F) → Tracker F → Tracker F
  run [] t = t
  run (c ∷ cs) t = run cs (step c t)

  -- No call of the list gives the symbol's lock back, and all are made in the lifetime of a lock
  -- taken at `start`.
  abbrev pub Holds : ℕ → String → List (TrackerCall F) → Type 0
  Holds start symbol [] = Unit
  Holds start symbol (c ∷ cs) =
      (releases symbol c ≡ false) × InLifetime start c × Holds start symbol cs

  step-IsLocked :
      (start : ℕ) (symbol : String) (c : TrackerCall F) (t : Tracker F)
      → releases symbol c ≡ false
      → InLifetime start c
      → IsLocked start symbol t
      → IsLocked start symbol (step c t)
  unfolding step mark_pending unmark_pending restore_positions
  step-IsLocked start symbol (can_place j now) t r h s =
      can_place-IsLocked start symbol ca j now t h s
  step-IsLocked start symbol (try_mark j tested marked) t r h s =
      try_mark-IsLocked start symbol ca j tested marked t h.1 s
  step-IsLocked start symbol (mark j now) t r h s =
      insert-IsSince start symbol j now t.pending_symbols h s
  step-IsLocked start symbol (unmark j) t r h s = erase-IsSince start symbol j t.pending_symbols r s
  step-IsLocked start symbol (fill f) t r h s = fill-IsLocked start symbol f t r s
  step-IsLocked start symbol (claim j ps tested marked) t r h s =
      claim-IsLocked start symbol j ps tested marked t h.1 s
  step-IsLocked start symbol (prices d) t r h s = prices-IsLocked start symbol d t s
  step-IsLocked start symbol (restore ps) t r h s = s

  run-IsLocked :
      (start : ℕ) (symbol : String) (cs : List (TrackerCall F)) (t : Tracker F)
      → Holds start symbol cs
      → IsLocked start symbol t
      → IsLocked start symbol (run cs t)
  unfolding run
  run-IsLocked start symbol [] t h s = s
  run-IsLocked start symbol (c ∷ cs) t h s =
      run-IsLocked start symbol cs (step c t) h.2 (step-IsLocked start symbol c t h.0 h.1 s)

  marked-IsLocked :
      (symbol : String) (tested marked : ℕ) (t : Tracker F)
      → (try_mark_pending ca symbol tested marked t).0 ≡ true
      → IsLocked marked symbol (try_mark_pending ca symbol tested marked t).1
  unfolding try_mark_pending mark_pending
  marked-IsLocked symbol tested marked t h =
      ground (arith, lookup-insert symbol symbol marked t.pending_symbols, eq_iff symbol symbol)

  locked_refuses :
      (start : ℕ) (symbol : String) (now marked : ℕ) (t : Tracker F)
      → IsLocked start symbol t
      → now ≤ start + pending_lock_ttl
      → (try_mark_pending ca symbol now marked t ≡ (false, t))
        × (can_place_order ca symbol now t ≡ (false, t))
  unfolding try_mark_pending can_place_order
  locked_refuses start symbol now marked t s h = locked (lookup symbol t.pending_symbols) refl
    where
      locked :
          (o : Option ℕ)
          → lookup symbol t.pending_symbols ≡ o
          → (try_mark_pending ca symbol now marked t ≡ (false, t))
            × (can_place_order ca symbol now t ≡ (false, t))
      locked none e = absurd (rw e at s)
      locked (some ts) e =
          let since : IsSince start (some ts) = rw e at s in
          let live : lock_expired ts now ≡ false = ground arith in
          (rw (e, live) (ground arith), rw (e, place_unlocked, live) (ground arith))

  -- Once try_mark_pending has claimed a symbol, then after any calls that do not give that
  -- symbol's lock back, and whose clock readings lie in the lock's lifetime, up to 1800 seconds
  -- later, a second claim and can_place_order are both refused and change nothing.
  pub try_mark_pending_excludes :
      (symbol : String) (tested start : ℕ) (t : Tracker F) (cs : List (TrackerCall F))
      (now marked : ℕ)
      → (try_mark_pending ca symbol tested start t).0 ≡ true
      → Holds start symbol cs
      → now ≤ start + pending_lock_ttl
      → let t' = run cs (try_mark_pending ca symbol tested start t).1 in
        (try_mark_pending ca symbol now marked t' ≡ (false, t'))
        × (can_place_order ca symbol now t' ≡ (false, t'))
  try_mark_pending_excludes symbol tested start t cs now marked h held low =
      locked_refuses start symbol now marked _
        (run-IsLocked start symbol cs _ held (marked-IsLocked symbol tested start t h)) low
