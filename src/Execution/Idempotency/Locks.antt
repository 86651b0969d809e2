-- ===== src/Execution/Idempotency/Locks.antt =====
-- The execution lock: who is kept out, and who is let in.
use claude_code_and_vive_cod.Prelude.{
  ℕ, ◌+◌, ◌≤◌, ◌<◌, ◌≡◌, refl, ap, inl, inr, true, false, Option, none, some, List, [], ◌∷◌, ◌∙◌,
  arith, Bool-cases, Option-cases, ltb,
}
use claude_code_and_vive_cod.Text.{Text, codes, text_eq, text_eq_iff}
use claude_code_and_vive_cod.Execution.Idempotency.{
  Entry, Store, Backends, acquire_lock, release_lock, set, db_set, take_lock, put, live,
  takes_entry,
}
use claude_code_and_vive_cod.Execution.Idempotency.Records.{text_eq_self}
use claude_code_and_vive_cod.Execution.Idempotency.Verifier.{with_execution_lock}

-- The calls that write to the store: the lock's, and `set`.
pub data StoreCall : Type 0 where
  acquire : Backends → Text → ℕ → StoreCall
  release : Backends → Text → StoreCall
  save : ℕ → Backends → Text → Text → Text → StoreCall

unfoldable pub step : StoreCall → Store → Store
step (acquire b k ttl) s = (acquire_lock b k ttl s).1
step (release b k) s = release_lock b k s
step (save ttl b k order_id status) s = set ttl b k order_id status s

unfoldable pub run : List StoreCall → Store → Store
run [] s = s
run (c ∷ cs) s = run cs (step c s)

-- The call does not give the fingerprint's lock back, and is no attempt to take it at or after `until`.
abbrev pub Spares : Text → ℕ → StoreCall → Type 0
Spares fp until (acquire b k ttl) = b.now < until
Spares fp until (release b k) = text_eq k fp ≡ false
Spares fp until (save ttl b k order_id status) = Unit

abbrev pub AllSpare : Text → ℕ → List StoreCall → Type 0
AllSpare fp until [] = Unit
AllSpare fp until (c ∷ cs) = Spares fp until c × AllSpare fp until cs

abbrev lock_entry : ℕ → Entry
lock_entry until = record { value = codes "1"; expires = until }

abbrev IsHeld : Text → ℕ → Store → Type 0
IsHeld fp until s = s.locks fp ≡ some (lock_entry until)

held_refuses :
    (b : Backends) (fp : Text) (ttl until : ℕ) (s : Store)
    → takes_entry b ttl ≡ true
    → b.now < until
    → IsHeld fp until s
    → acquire_lock b fp ttl s ≡ (false, s)
unfolding acquire_lock
held_refuses b fp ttl until s up early held =
    let young : ltb b.now until ≡ true = ground arith in rw (up, held, young) refl

put-apart :
    (k fp : Text) (e : Option Entry) (m : Text → Option Entry)
    → text_eq k fp ≡ false
    → put k e m fp ≡ m fp
put-apart k fp e m apart = rw apart refl

take_lock-apart :
    (k fp : Text) (expires : ℕ) (s : Store) (found : Option Entry)
    → text_eq k fp ≡ false
    → (take_lock k expires s found).1.locks fp ≡ s.locks fp
take_lock-apart k fp expires s none apart = put-apart k fp _ s.locks apart
take_lock-apart k fp expires s (some e) apart = refl

unlocked-IsHeld :
    (b : Backends) (k fp : Text) (ttl until : ℕ) (s : Store)
    → takes_entry b ttl ≡ false
    → IsHeld fp until s
    → IsHeld fp until (acquire_lock b k ttl s).1
unfolding acquire_lock
unlocked-IsHeld b k fp ttl until s down held = rw down held

elsewhere-IsHeld :
    (b : Backends) (k fp : Text) (ttl until : ℕ) (s : Store)
    → takes_entry b ttl ≡ true
    → text_eq k fp ≡ false
    → IsHeld fp until s
    → IsHeld fp until (acquire_lock b k ttl s).1
unfolding acquire_lock
elsewhere-IsHeld b k fp ttl until s up apart held =
    rw up (take_lock-apart k fp (b.now + ttl) s (live b.now (s.locks k)) apart ∙ held)

acquire_lock-IsHeld :
    (b : Backends) (k fp : Text) (ttl until : ℕ) (s : Store)
    → b.now < until
    → IsHeld fp until s
    → IsHeld fp until (acquire_lock b k ttl s).1
acquire_lock-IsHeld b k fp ttl until s early held = elim (Bool-cases (takes_entry b ttl)) [
  | inr down ↦ unlocked-IsHeld b k fp ttl until s down held
  | inl up ↦ elim (Bool-cases (text_eq k fp)) [
    | inl same ↦
        let e : k ≡ fp = (text_eq_iff k fp).0 same in
        rw (e, held_refuses b fp ttl until s up early held) held
    | inr apart ↦ elsewhere-IsHeld b k fp ttl until s up apart held
  ]
]

step-IsHeld :
    (fp : Text) (until : ℕ) (c : StoreCall) (s : Store)
    → Spares fp until c
    → IsHeld fp until s
    → IsHeld fp until (step c s)
unfolding step release_lock set db_set
step-IsHeld fp until (acquire b k ttl) s early held =
    acquire_lock-IsHeld b k fp ttl until s early held
step-IsHeld fp until (release b k) s apart held = elim (Bool-cases b.redis_up) [
  | inl up ↦ rw up (put-apart k fp none s.locks apart ∙ held)
  | inr down ↦ rw down held
]
step-IsHeld fp until (save ttl b k order_id status) s free held =
    elim (Bool-cases (takes_entry b ttl)) [
      | inl up ↦ rw up held
      | inr down ↦ elim (Bool-cases b.db_up) [
        | inl db ↦ rw (down, db) held
        | inr off ↦ rw (down, off) held
      ]
    ]

run-IsHeld :
    (fp : Text) (until : ℕ) (cs : List StoreCall) (s : Store)
    → AllSpare fp until cs
    → IsHeld fp until s
    → IsHeld fp until (run cs s)
unfolding run
run-IsHeld fp until [] s spare held = held
run-IsHeld fp until (c ∷ cs) s spare held =
    run-IsHeld fp until cs (step c s) spare.1 (step-IsHeld fp until c s spare.0 held)

given-IsHeld :
    (b : Backends) (fp : Text) (ttl : ℕ) (s : Store)
    → takes_entry b ttl ≡ true
    → (acquire_lock b fp ttl s).0 ≡ true
    → IsHeld fp (b.now + ttl) (acquire_lock b fp ttl s).1
unfolding acquire_lock
given-IsHeld b fp ttl s up given = elim (Option-cases (live b.now (s.locks fp))) [
  | inl free ↦ rw (free, up, text_eq_self fp) refl
  | inr (e, taken) ↦ cc (rw (up, taken) at given)
]

-- A lock that the cache gave, for a positive lifetime, is refused to a later call at which the
-- cache is up, with a positive lifetime of its own, before the lock's time is over, and the
-- refused call changes nothing; in between there may be any calls of acquire_lock before that
-- time, any of set, and any of release_lock for another fingerprint, whichever backends answer
-- them.
pub acquire_lock_excludes :
    (first second : Backends) (fp : Text) (ttl ttl' : ℕ) (cs : List StoreCall) (s : Store)
    → takes_entry first ttl ≡ true
    → takes_entry second ttl' ≡ true
    → (acquire_lock first fp ttl s).0 ≡ true
    → AllSpare fp (first.now + ttl) cs
    → second.now < first.now + ttl
    → let t = run cs (acquire_lock first fp ttl s).1 in acquire_lock second fp ttl' t ≡ (false, t)
acquire_lock_excludes first second fp ttl ttl' cs s up up' given spare early =
    let t = run cs (acquire_lock first fp ttl s).1 in
    held_refuses second fp ttl' (first.now + ttl) t up' early (
      run-IsHeld fp (first.now + ttl) cs (acquire_lock first fp ttl s).1 spare
        (given-IsHeld first fp ttl s up given))

released_lock_free :
    (b : Backends) (fp : Text) (ttl : ℕ) (s : Store)
    → takes_entry b ttl ≡ true
    → s.locks fp ≡ none
    → (acquire_lock b fp ttl s).0 ≡ true
unfolding acquire_lock
released_lock_free b fp ttl s up free = rw (up, free) refl

acquired-state :
    (b : Backends) (fp : Text) (ttl : ℕ) (s : Store)
    → takes_entry b ttl ≡ true
    → live b.now (s.locks fp) ≡ none
    → acquire_lock b fp ttl s ≡ (
      true,
      record s {
        locks = put fp (some (record { value = codes "1"; expires = b.now + ttl })) s.locks;
      },
    )
unfolding acquire_lock
acquired-state b fp ttl s up free = rw (up, free) refl

taken_lock_lost :
    (first second exit third : Backends) (fp : Text) (ttl : ℕ) (s : Store)
    → takes_entry first ttl ≡ true
    → takes_entry second ttl ≡ true
    → exit.redis_up ≡ true
    → takes_entry third ttl ≡ true
    → live first.now (s.locks fp) ≡ none
    → first.now + ttl ≤ second.now
    → let run =
        with_execution_lock first exit fp ttl (λ acquired t. acquire_lock second fp ttl t) s in
      (run.0 ≡ true) × ((acquire_lock third fp ttl run.1).0 ≡ true)
unfolding with_execution_lock release_lock
taken_lock_lost first second exit third fp ttl s up up' up'' up3 free late =
    let gone : ltb second.now (first.now + ttl) ≡ false = ground arith in
    let one : Store = record s {
      locks = put fp (some (record { value = codes "1"; expires = first.now + ttl })) s.locks;
    } in
    let two = acquired-state second fp ttl one up' (rw (text_eq_self fp, gone) refl) in
    rw (acquired-state first fp ttl s up free, two, up'')
      (refl, released_lock_free third fp ttl _ up3 (rw (text_eq_self fp) refl))

-- The cache rejects an entry without a lifetime, and the lock is given to everyone.
rejected-state :
    (b : Backends) (fp : Text) (ttl : ℕ) (s : Store)
    → takes_entry b ttl ≡ false
    → acquire_lock b fp ttl s ≡ (true, s)
unfolding acquire_lock
rejected-state b fp ttl s out = rw out refl

unheld_lock_lost :
    (first second exit third : Backends) (fp : Text) (ttl : ℕ) (s : Store)
    → takes_entry first ttl ≡ false
    → takes_entry second ttl ≡ false
    → takes_entry third ttl ≡ false
    → let run =
        with_execution_lock first exit fp ttl (λ acquired t. acquire_lock second fp ttl t) s in
      (run.0 ≡ true) × ((acquire_lock third fp ttl run.1).0 ≡ true)
unfolding with_execution_lock
unheld_lock_lost first second exit third fp ttl s out out' out3 =
    rw (rejected-state first fp ttl s out, rejected-state second fp ttl s out')
      (refl, ap (λ r. r.0) (rejected-state third fp ttl _ out3))

-- With the cache up at every call, a worker that holds the lock beyond its time gives back, on
-- leaving, the lock that a second worker took after it expired: a third worker then gets the lock
-- as well, at any time.
pub expired_lock_lost :
    (first second exit third : Backends) (fp : Text) (ttl : ℕ) (s : Store)
    → first.redis_up ≡ true
    → second.redis_up ≡ true
    → exit.redis_up ≡ true
    → third.redis_up ≡ true
    → live first.now (s.locks fp) ≡ none
    → first.now + ttl ≤ second.now
    → let run =
        with_execution_lock first exit fp ttl (λ acquired t. acquire_lock second fp ttl t) s in
      (run.0 ≡ true) × ((acquire_lock third fp ttl run.1).0 ≡ true)
expired_lock_lost first second exit third fp ttl s up up' up'' up3 free late =
    elim (Bool-cases (ltb 0 ttl)) [
      | inl lasting ↦
          taken_lock_lost first second exit third fp ttl s (rw (up, lasting) refl)
            (rw (up', lasting) refl) up'' (rw (up3, lasting) refl) free late
      | inr none_left ↦
          unheld_lock_lost first second exit third fp ttl s (rw (up, none_left) refl)
            (rw (up', none_left) refl) (rw (up3, none_left) refl)
    ]
