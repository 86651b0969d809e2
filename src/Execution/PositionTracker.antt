-- ===== src/Execution/PositionTracker.antt =====
-- backend/execution/position_tracker.py. Clock readings are whole seconds; a method that reads the
-- clock twice takes both readings. `Position` objects are owned by the tracker.
pub mod LockCalls
pub mod Locks
pub mod Holdings
pub mod Exits
use claude_code_and_vive_cod.Prelude.{
  ℕ, zero, ◌+◌, ◌<◌, Bool, true, false, not, ◌||◌, Option, none, some, List, [], ◌∷◌, map, String,
  str_eq, ℤ, pos, ◌+ℤ◌, ◌-ℤ◌, leb_ℤ, ltb, if◌then◌else◌, pos_part, neg_part, ◌==◌,
}
use claude_code_and_vive_cod.Dict.{Dict, lookup, insert, erase, values}
use claude_code_and_vive_cod.Floats.{FloatOps}
use claude_code_and_vive_cod.Values.{PyValue, int_value, float_value, finite}
use claude_code_and_vive_cod.Brokers.Models.{Position}
use claude_code_and_vive_cod.Risk.Sellable.{BrokerPosition, sellable_from_position}
use claude_code_and_vive_cod.Risk.HaltPolicy.{find_position, is_valid_execution_price}

-- `_PENDING_LOCK_TTL`, in seconds.
abbrev pub pending_lock_ttl : ℕ
pending_lock_ttl = 1800

pub record Fill (F : Type 0) : Type 0 where
  pub order_id : String
  pub symbol : String
  pub side : String
  pub qty : ℤ
  pub price : F
  pub market : String

pub record Tracker (F : Type 0) : Type 0 where
  pub positions : Dict (Position F)
  pub pending_symbols : Dict ℕ

-- The corporate-action runtime's answer for a symbol, `none` if its check raises.
abbrev pub Gate : Type 0
Gate = Option (String → Option Bool)

answer_blocks : Option Bool → Bool
answer_blocks none = true
answer_blocks (some blocked) = blocked

-- `_ca_blocked`, and `is_ca_blocked`.
unfoldable pub ca_blocked : Gate → String → Bool
unfolding answer_blocks
ca_blocked none symbol = false
ca_blocked (some is_blocked) symbol = answer_blocks (is_blocked symbol)

-- `now - ts > _PENDING_LOCK_TTL`
abbrev pub lock_expired : ℕ → ℕ → Bool
lock_expired ts now = ltb (ts + pending_lock_ttl) now

-- Whether a lock is there and has not expired.
abbrev pub lock_held : Option ℕ → ℕ → Bool
lock_held none now = false
lock_held (some ts) now = not (lock_expired ts now)

-- `_with_sellable` of a position that is there.
unfoldable pub with_sellable : {F : Type 0} → Position F → Position F
with_sellable p = record p { sellable_qty = some p.qty }

-- `int(x)` of a quantity that was read as a count.
unfoldable pub py_int : PyValue → ℤ
py_int (int_value n) = n
py_int (float_value (finite false whole fraction)) = pos whole
py_int (float_value (finite true whole fraction)) = pos zero -ℤ pos whole
py_int _ = pos zero

module _ {F : Type 0} where
  unfoldable pub get_position : String → Tracker F → Option (Position F)
  get_position symbol t = elim (lookup symbol t.positions) [
    | none ↦ none
    | some p ↦ some (with_sellable p)
  ]

  unfoldable pub all_positions : Tracker F → List (Position F)
  all_positions t = map with_sellable (values t.positions)

  place_unlocked : String → ℕ → Tracker F → Option ℕ → Bool × Tracker F
  place_unlocked symbol now t none = (true, t)
  place_unlocked symbol now t (some ts) =
      if lock_expired ts now
      then (true, record t { pending_symbols = erase symbol t.pending_symbols })
      else (false, t)

  unfoldable pub can_place_order : Gate → String → ℕ → Tracker F → Bool × Tracker F
  unfolding place_unlocked
  can_place_order ca symbol now t =
      if ca_blocked ca symbol
      then (false, t)
      else place_unlocked symbol now t (lookup symbol t.pending_symbols)

  unfoldable pub mark_pending : String → ℕ → Tracker F → Tracker F
  mark_pending symbol now t = record t { pending_symbols = insert symbol now t.pending_symbols }

  unfoldable pub unmark_pending : String → Tracker F → Tracker F
  unmark_pending symbol t = record t { pending_symbols = erase symbol t.pending_symbols }

  -- The clock is read for the test, and again for the new lock.
  unfoldable pub try_mark_pending : Gate → String → ℕ → ℕ → Tracker F → Bool × Tracker F
  try_mark_pending ca symbol tested marked t =
      if ca_blocked ca symbol
      then (false, t)
      else if lock_held (lookup symbol t.pending_symbols) tested
      then (false, t)
      else (true, mark_pending symbol marked t)

  set_price : F → Position F → Position F
  set_price price p = record p { current_price = price }

  price_found : String → F → Option (Position F) → Tracker F → Tracker F
  unfolding set_price
  price_found symbol price none t = t
  price_found symbol price (some p) t = record t {
    positions = insert symbol (set_price price p) t.positions;
  }

  unfoldable pub update_prices : Dict F → Tracker F → Tracker F
  unfolding price_found
  update_prices [] t = t
  update_prices ((symbol, price) ∷ prices) t =
      update_prices prices (price_found symbol price (lookup symbol t.positions) t)

  restore_from : Dict (Position F) → List (Position F) → Dict (Position F)
  restore_from d [] = d
  restore_from d (p ∷ ps) = restore_from (insert p.symbol p d) ps

  unfoldable pub restore_positions : List (Position F) → Tracker F → Tracker F
  unfolding restore_from
  restore_positions ps t = record t { positions = restore_from [] ps }

-- The sell branch of `on_fill`.
module _ {F : Type 0} where
  unfoldable pub sell_filled : Fill F → Option (Position F) → Tracker F → Tracker F
  sell_filled fill none t = t
  sell_filled fill (some p) t =
      let p' = record p { qty = p.qty -ℤ fill.qty; current_price = fill.price } in
      if leb_ℤ p'.qty (pos zero)
      then record t { positions = erase fill.symbol t.positions }
      else record t { positions = insert fill.symbol p' t.positions }

module _ {F : Type 0} ⦃fl : FloatOps F⦄ where
  abbrev pub bought : Fill F → Position F
  bought fill = record {
    symbol = fill.symbol;
    qty = fill.qty;
    avg_price = fill.price;
    market = fill.market;
    current_price = fill.price;
    sellable_qty = none;
  }

  -- The position after a buy on top of it.
  unfoldable pub averaged : Fill F → Position F → Position F
  averaged fill p =
      let total = p.qty +ℤ fill.qty in
      record p {
        qty = total;
        avg_price =
            fl.div
              (fl.add (fl.mul p.avg_price (fl.of_int p.qty))
                (fl.mul fill.price (fl.of_int fill.qty)))
              (fl.of_int total);
        current_price = fill.price;
      }

  -- The buy branch; `false` is the division by a total quantity of zero, which raises.
  unfoldable pub buy_filled : Fill F → Option (Position F) → Tracker F → Bool × Tracker F
  buy_filled fill none t =
      (true, record t { positions = insert fill.symbol (bought fill) t.positions })
  buy_filled fill (some p) t =
      if pos_part (p.qty +ℤ fill.qty) + neg_part (p.qty +ℤ fill.qty) == 0
      then (false, t)
      else (true, record t { positions = insert fill.symbol (averaged fill p) t.positions })

  unfoldable pub on_fill : Fill F → Tracker F → Bool × Tracker F
  on_fill fill t =
      let t' = unmark_pending fill.symbol t in
      let found = lookup fill.symbol t.positions in
      if str_eq fill.side "buy"
      then buy_filled fill found t'
      else if str_eq fill.side "sell"
      then (true, sell_filled fill found t')
      else (true, t')

  abbrev last_price : Option (Position F) → F
  last_price none = fl.zero_float
  last_price (some p) = p.current_price

  -- The position that `claim_ca_exit` takes over from the broker.
  unfoldable pub adopted : String → BrokerPosition → Option (Position F) → Position F
  adopted symbol match prev = record {
    symbol = symbol;
    qty = py_int match.qty;
    avg_price = fl.of_value match.avg_price;
    market = match.market;
    current_price = last_price prev;
    sellable_qty = none;
  }

-- Why an exit is refused: the lookup raised, nothing is held, nothing is sellable, the average
-- price is no valid price, or the lock is held.
pub data ClaimRefusal : Type 0 where
  lookup_failed no_holding nothing_sellable bad_average lock_pending : ClaimRefusal

pub data Claim : Type 0 where
  claimed : ℕ → Claim
  refused : ClaimRefusal → Claim

module _ {F : Type 0} ⦃fl : FloatOps F⦄ where
  unfoldable pub claim_priced : String → BrokerPosition → ℕ → ℕ → ℕ → Tracker F → Claim × Tracker F
  claim_priced symbol match sellable tested marked t =
      if lock_held (lookup symbol t.pending_symbols) tested then (refused lock_pending, t) else (
        claimed sellable,
        record {
          positions = insert symbol (adopted symbol match (lookup symbol t.positions)) t.positions;
          pending_symbols = insert symbol marked t.pending_symbols;
        },
      )

  claim_sellable : String → BrokerPosition → Option ℕ → ℕ → ℕ → Tracker F → Claim × Tracker F
  claim_sellable symbol match none tested marked t = (refused nothing_sellable, t)
  claim_sellable symbol match (some sellable) tested marked t =
      if sellable == 0
      then (refused nothing_sellable, t)
      else if is_valid_execution_price match.avg_price
      then claim_priced symbol match sellable tested marked t
      else (refused bad_average, t)

  claim_match : String → Option BrokerPosition → ℕ → ℕ → Tracker F → Claim × Tracker F
  unfolding claim_sellable
  claim_match symbol none tested marked t = (refused no_holding, t)
  claim_match symbol (some match) tested marked t =
      claim_sellable symbol match (sellable_from_position match (int_value (pos zero)) false).qty
        tested marked t

  unfoldable pub claim_ca_exit :
      String → Option (List BrokerPosition) → ℕ → ℕ → Tracker F → Claim × Tracker F
  unfolding claim_match
  claim_ca_exit symbol none tested marked t = (refused lookup_failed, t)
  claim_ca_exit symbol (some positions) tested marked t =
      claim_match symbol (find_position symbol positions) tested marked t
