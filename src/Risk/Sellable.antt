-- ===== src/Risk/Sellable.antt =====
-- backend/risk/sellable_qty.py. The texts of `reason` are constructors; a known figure's reason
-- carries the numbers that the text prints.
pub mod Bounds
pub mod Pending
use claude_code_and_vive_cod.Prelude.{
  ℕ, ◌+◌, ◌-◌, Bool, true, false, not, ◌&&◌, Option, none, some, List, [], ◌∷◌, String, ltb, leb,
  is_some, if◌then◌else◌,
}
use claude_code_and_vive_cod.Values.{PyFloat, PyValue, none_value, number_of, whole_count}
use claude_code_and_vive_cod.Text.{Text, codes, upper, lower, text_eq, text_mem}

pub data Cause : Type 0 where
  unreported untrusted : Cause

pub data Reason : Type 0 where
  held_untrusted not_reported orderable_untrusted pending_untrusted : Reason
  derived : ℕ → ℕ → ℕ → Reason

pub record SellableResult : Type 0 where
  pub qty : Option ℕ
  pub reason : Reason
  pub cause : Option Cause

-- `SellableResult.known`
abbrev pub known : SellableResult → Bool
known r = is_some r.qty

abbrev whole_of : Option PyFloat → Option ℕ
whole_of none = none
whole_of (some x) = whole_count x

unfoldable pub as_count : PyValue → Option ℕ
unfolding number_of whole_count
as_count v = whole_of (number_of v)

abbrev unknown : Reason → Cause → SellableResult
unknown why cause = record { qty = none; reason = why; cause = some cause }

abbrev is_unknown : PyValue → Bool
is_unknown none_value = true
is_unknown _ = false

abbrev min : ℕ → ℕ → ℕ
min a b = if ltb b a then b else a

-- The last part of `resolve_sellable`, once the three counts are read. `max(0, base - pending)` is
-- subtraction on ℕ.
settle : Bool → ℕ → ℕ → ℕ → SellableResult
settle nets held orderable pending =
    let pending' = if nets then 0 else pending in
    record {
      qty = some (min orderable held - pending');
      reason = derived orderable held pending';
      cause = none;
    }

-- `held`, `orderable` and `pending` as `_as_count` read them, in the order of the early returns.
resolve_counts : Bool → Bool → Option ℕ → Option ℕ → Option ℕ → SellableResult
unfolding settle
resolve_counts nets missing none orderable pending = unknown held_untrusted untrusted
resolve_counts nets true (some held) orderable pending = unknown not_reported unreported
resolve_counts nets false (some held) none pending = unknown orderable_untrusted untrusted
resolve_counts nets false (some held) (some o) none = unknown pending_untrusted untrusted
resolve_counts nets false (some held) (some o) (some p) = settle nets held o p

unfoldable pub resolve_sellable : PyValue → PyValue → PyValue → Bool → SellableResult
unfolding resolve_counts
resolve_sellable held_qty broker_sellable pending_sell_qty broker_nets_pending =
    resolve_counts broker_nets_pending (is_unknown broker_sellable) (as_count held_qty)
      (as_count broker_sellable) (as_count pending_sell_qty)

pub data Refusal : Type 0 where
  sellable_unknown requested_untrusted requested_not_positive requested_over : Refusal

-- `(True, "")` or `(False, reason)`
pub data Verdict (R : Type 0) : Type 0 where
  pass : Verdict R
  refuse : R → Verdict R

check_requested : Option ℕ → ℕ → Verdict Refusal
check_requested none available = refuse requested_untrusted
check_requested (some requested) available =
    if leb requested 0
    then refuse requested_not_positive
    else if ltb available requested
    then refuse requested_over
    else pass

check_known : Option ℕ → Option ℕ → Verdict Refusal
check_known requested none = refuse sellable_unknown
check_known requested (some available) = check_requested requested available

unfoldable pub validate_sell_qty : PyValue → SellableResult → Verdict Refusal
unfolding check_known check_requested
validate_sell_qty requested_qty sellable = check_known (as_count requested_qty) sellable.qty

-- What the adapters put into a `Position`; Python does not enforce its annotations.
pub record BrokerPosition : Type 0 where
  pub symbol : String
  pub qty : PyValue
  pub sellable_qty : PyValue
  pub avg_price : PyValue
  pub market : String

unfoldable pub sellable_from_position : BrokerPosition → PyValue → Bool → SellableResult
unfolding resolve_sellable
sellable_from_position p pending_sell_qty broker_nets_pending =
    resolve_sellable p.qty p.sellable_qty pending_sell_qty broker_nets_pending

abbrev pub released_sell_statuses : List Text
released_sell_statuses =
    codes "submitted" ∷ codes "rejected" ∷ codes "failed" ∷ codes "blocked" ∷ codes "canceled" ∷ []

-- A `quick_trade_orders` row; `None` and the empty text are both falsy, and `or ""` makes them one.
pub record OrderRow : Type 0 where
  pub symbol : Text
  pub side : Text
  pub qty : PyValue
  pub status : Text

-- The three `continue` tests, negated.
unfoldable pub reserves : Text → OrderRow → Bool
reserves wanted r =
    text_eq (upper r.symbol) wanted
    && (text_eq (lower r.side) (codes "sell")
        && not (text_mem (lower r.status) released_sell_statuses))

abbrev add_count : Option ℕ → Option ℕ → Option ℕ
add_count none rest = none
add_count (some q) none = none
add_count (some q) (some t) = some (q + t)

-- The loop from a running total; `none` is the `ValueError`.
unfoldable pub pending_from : Text → ℕ → List OrderRow → Option ℕ
pending_from wanted total [] = some total
pending_from wanted total (r ∷ rows) = elim (reserves wanted r) [
  | false ↦ pending_from wanted total rows
  | true ↦ elim (as_count r.qty) [ none ↦ none | some q ↦ pending_from wanted (total + q) rows ]
]

unfoldable pub pending_sell_qty_from_rows : List OrderRow → Text → Option ℕ
unfolding pending_from
pending_sell_qty_from_rows rows symbol = pending_from (upper symbol) 0 rows
