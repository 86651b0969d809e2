-- ===== src/Execution/PositionTracker/Exits.antt =====
-- What an exit past the corporate-action gate is.
use claude_code_and_vive_cod.Prelude.{
  ℕ, zero, ◌≡◌, ◌<◌, refl, inl, inr, true, false, Option, none, some, List, String, pos, arith,
  Bool-cases, ◌==◌,
}
use claude_code_and_vive_cod.Dict.{lookup, lookup-insert_self}
use claude_code_and_vive_cod.Floats.{FloatOps}
use claude_code_and_vive_cod.Values.{int_value}
use claude_code_and_vive_cod.Risk.Sellable.{BrokerPosition, as_count, sellable_from_position}
use claude_code_and_vive_cod.Risk.Sellable.Bounds.{resolved_bounds, IsBounded}
use claude_code_and_vive_cod.Risk.HaltPolicy.{find_position, is_valid_execution_price}
use claude_code_and_vive_cod.Execution.PositionTracker.{
  Tracker, Claim, claimed, refused, claim_ca_exit, claim_priced, claim_sellable, claim_match,
  adopted, lock_held,
}

position_bounds :
    (held : BrokerPosition) (n : ℕ)
    → (sellable_from_position held (int_value (pos zero)) false).qty ≡ some n
    → IsBounded n (as_count held.qty) (as_count held.sellable_qty)
unfolding sellable_from_position
position_bounds held n e =
    resolved_bounds held.qty held.sellable_qty (int_value (pos zero)) false n e

module _ {F : Type 0} ⦃fl : FloatOps F⦄ (symbol : String) (tested marked : ℕ) (t : Tracker F) where
  -- What a claim has done, by how it ended: a refusal changes nothing and leaves the lock alone; a claimed
  -- quantity is positive and within what the broker holds and will take, at a valid
  -- average price, the lock was free and is now taken, and the position is the broker's.
  abbrev pub Claims : Option (List BrokerPosition) → Claim × Tracker F → Type 0
  Claims get_positions (refused r, t') = t' ≡ t
  Claims get_positions (claimed n, t') =
      (positions : List BrokerPosition) × (held : BrokerPosition) × (get_positions ≡ some positions)
      × (find_position symbol positions ≡ some held)
      × (0 < n)
      × IsBounded n (as_count held.qty) (as_count held.sellable_qty)
      × (is_valid_execution_price held.avg_price ≡ true)
      × (lock_held (lookup symbol t.pending_symbols) tested ≡ false)
      × (lookup symbol t'.pending_symbols ≡ some marked)
      × (lookup symbol t'.positions ≡ some (adopted symbol held (lookup symbol t.positions)))

  priced-Claims :
      (positions : List BrokerPosition) (held : BrokerPosition) (n : ℕ)
      → find_position symbol positions ≡ some held
      → 0 < n
      → IsBounded n (as_count held.qty) (as_count held.sellable_qty)
      → is_valid_execution_price held.avg_price ≡ true
      → Claims (some positions) (claim_priced symbol held n tested marked t)
  unfolding claim_priced
  priced-Claims positions held n f p b v =
      elim (Bool-cases (lock_held (lookup symbol t.pending_symbols) tested)) [
        | inl taken ↦ rw taken refl
        | inr free ↦ rw free (
          positions,
          held,
          refl,
          f,
          p,
          b,
          v,
          free,
          lookup-insert_self symbol marked t.pending_symbols,
          lookup-insert_self symbol (adopted symbol held (lookup symbol t.positions)) t.positions,
        )
      ]

  sellable-Claims :
      (positions : List BrokerPosition) (held : BrokerPosition) (q : Option ℕ)
      → find_position symbol positions ≡ some held
      → ((n : ℕ) → q ≡ some n → IsBounded n (as_count held.qty) (as_count held.sellable_qty))
      → Claims (some positions) (claim_sellable symbol held q tested marked t)
  unfolding claim_sellable
  sellable-Claims positions held none f b = refl
  sellable-Claims positions held (some n) f b = elim (Bool-cases (n == 0)) [
    | inl nothing ↦ rw nothing refl
    | inr positive ↦ elim (Bool-cases (is_valid_execution_price held.avg_price)) [
      | inl v ↦ rw (positive, v) (priced-Claims positions held n f (ground arith) (b n refl) v)
      | inr bad ↦ rw (positive, bad) refl
    ]
  ]

  match-Claims :
      (positions : List BrokerPosition) (o : Option BrokerPosition)
      → find_position symbol positions ≡ o
      → Claims (some positions) (claim_match symbol o tested marked t)
  unfolding claim_match
  match-Claims positions none f = refl
  match-Claims positions (some held) f =
      sellable-Claims positions held (sellable_from_position held (int_value (pos zero)) false).qty
        f (λ n e. position_bounds held n e)

  -- A refused claim of an exit leaves the tracker as it was; a claim that succeeds was sized by a
  -- live lookup to a positive quantity that the broker holds and will take, at a valid average
  -- price, with the lock free before and taken after.
  pub claim_ca_exit-Claims :
      (get_positions : Option (List BrokerPosition))
      → Claims get_positions (claim_ca_exit symbol get_positions tested marked t)
  unfolding claim_ca_exit
  claim_ca_exit-Claims none = refl
  claim_ca_exit-Claims (some positions) =
      match-Claims positions (find_position symbol positions) refl
