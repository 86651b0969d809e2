-- ===== src/Data/CorporateActions.antt =====
-- backend/data/corporate_actions.py: actions, factors, the classifier of a quantity jump, and the
-- service with its registry of pending actions. Doubles are `F`, and their literals are parameters.
-- An audit row is its event and its action.
pub mod Detector
pub mod Service
pub mod Runtime
pub mod Gate
pub mod Applying
pub mod Labels
use claude_code_and_vive_cod.Prelude.{
  ℕ, Bool, true, false, not, ◌&&◌, ◌||◌, Option, none, some, List, [], ◌∷◌, String, str_eq, ◌==◌,
  if◌then◌else◌, map,
}
use claude_code_and_vive_cod.Floats.{FloatOps}

pub data ActionType : Type 0 where
  split reverse_split cash_dividend ticker_change unknown_type : ActionType

pub data ActionStatus : Type 0 where
  confirmed pending unknown_status : ActionStatus

abbrev pub type_rank : ActionType → ℕ
type_rank split = 0
type_rank reverse_split = 1
type_rank cash_dividend = 2
type_rank ticker_change = 3
type_rank unknown_type = 4

abbrev pub type_eq : ActionType → ActionType → Bool
type_eq a b = type_rank a == type_rank b

abbrev pub status_rank : ActionStatus → ℕ
status_rank confirmed = 0
status_rank pending = 1
status_rank unknown_status = 2

abbrev pub is_confirmed : ActionStatus → Bool
is_confirmed s = status_rank s == 0

pub record CorporateAction (F : Type 0) : Type 0 where
  pub action_type : ActionType
  pub symbol : String
  pub effective_date : ℕ
  pub status : ActionStatus
  pub ratio : Option F
  pub cash_amount : Option F
  pub new_symbol : Option String
  pub source : String
  pub detail : String

-- `x > 0`, `x != 1.0` and `x == y` of doubles, and the literals of the file.
pub record Numbers (F : Type 0) : Type 0 where
  pub ops : FloatOps F
  pub is_positive : F → Bool
  pub is_not_one : F → Bool
  pub equal : F → F → Bool
  pub one : F
  pub tiny : F
  pub tolerance : F
  pub value_tolerance : F
  pub known_ratios : List F

-- `SUPPORTED_ACTION_TYPES`
abbrev pub is_supported : ActionType → Bool
is_supported unknown_type = false
is_supported _ = true

abbrev has_text : Option String → Bool
has_text none = false
has_text (some s) = not (str_eq s "")

abbrev pub incomplete : String
incomplete = "incomplete or invalid fields for action_type"

module _ {F : Type 0} (n : Numbers F) where
  abbrev ratio_valid : Option F → Bool
  ratio_valid none = false
  ratio_valid (some r) = n.is_positive r && n.is_not_one r

  abbrev amount_valid : Option F → Bool
  amount_valid none = false
  amount_valid (some c) = n.is_positive c

  abbrev pub fields_valid : ActionType → CorporateAction F → Bool
  fields_valid split a = ratio_valid a.ratio
  fields_valid reverse_split a = ratio_valid a.ratio
  fields_valid cash_dividend a = amount_valid a.cash_amount
  fields_valid ticker_change a = has_text a.new_symbol
  fields_valid unknown_type a = false

  unfoldable pub is_valid : CorporateAction F → Bool
  is_valid a = fields_valid a.action_type a

  unfoldable pub classified : CorporateAction F → CorporateAction F
  classified a = if is_valid a then a else record a {
    status = unknown_status;
    detail = if str_eq a.detail "" then incomplete else a.detail;
  }

  abbrev same_number : Option F → Option F → Bool
  same_number none none = true
  same_number (some x) (some y) = n.equal x y
  same_number none (some y) = false
  same_number (some x) none = false

  abbrev same_text : Option String → Option String → Bool
  same_text none none = true
  same_text (some x) (some y) = str_eq x y
  same_text none (some y) = false
  same_text (some x) none = false

  -- `==` of two actions, field by field.
  unfoldable pub action_eq : CorporateAction F → CorporateAction F → Bool
  action_eq a b =
      type_eq a.action_type b.action_type
      && (str_eq a.symbol b.symbol
          && (a.effective_date == b.effective_date
              && (status_rank a.status == status_rank b.status
                  && (same_number a.ratio b.ratio
                      && (same_number a.cash_amount b.cash_amount
                          && (same_text a.new_symbol b.new_symbol
                              && (str_eq a.source b.source && str_eq a.detail b.detail)))))))

pub record AdjustmentFactor (F : Type 0) : Type 0 where
  pub price_factor : F
  pub qty_factor : F
  pub cash_per_share : F
  pub new_symbol : Option String

pub record PositionSnapshot (F : Type 0) : Type 0 where
  pub symbol : String
  pub qty : F
  pub avg_price : F

pub record PositionAdjustmentResult (F : Type 0) : Type 0 where
  pub position : PositionSnapshot F
  pub cash_delta : F
  pub value_before : F
  pub value_after : F

-- The keys of a bar that an adjustment reads.
pub record Bar (F : Type 0) : Type 0 where
  pub open_price : Option F
  pub high : Option F
  pub low : Option F
  pub close : Option F
  pub volume : Option F
  pub symbol : Option String

abbrev pub or_text : Option String → String → String
or_text none t = t
or_text (some s) t = if str_eq s "" then t else s

abbrev or_same : Option String → Option String → Option String
or_same none t = t
or_same (some s) t = if str_eq s "" then t else some s

abbrev scaled : {F : Type 0} → FloatOps F → F → Option F → Option F
scaled ops k none = none
scaled ops k (some x) = some (ops.mul x k)

module _ {F : Type 0} (n : Numbers F) where
  abbrev no_change : AdjustmentFactor F
  no_change = record {
    price_factor = n.one;
    qty_factor = n.one;
    cash_per_share = n.ops.zero_float;
    new_symbol = none;
  }

  -- `action.ratio or 1.0`: a ratio of zero counts as none.
  abbrev or_number : Option F → F → F
  or_number none d = d
  or_number (some x) d = if n.equal x n.ops.zero_float then d else x

  abbrev factor_by : ActionType → CorporateAction F → AdjustmentFactor F
  factor_by split a =
      let r = or_number a.ratio n.one in
      record no_change { price_factor = n.ops.div n.one r; qty_factor = r }
  factor_by reverse_split a =
      let r = or_number a.ratio n.one in
      record no_change { price_factor = n.ops.div n.one r; qty_factor = r }
  factor_by cash_dividend a = record no_change {
    cash_per_share = or_number a.cash_amount n.ops.zero_float;
  }
  factor_by ticker_change a = record no_change { new_symbol = a.new_symbol }
  factor_by unknown_type a = no_change

  unfoldable pub factor_for : CorporateAction F → AdjustmentFactor F
  factor_for a = factor_by a.action_type a

  unfoldable pub adjust_bar : AdjustmentFactor F → Bar F → Bar F
  adjust_bar k b = record {
    open_price = scaled n.ops k.price_factor b.open_price;
    high = scaled n.ops k.price_factor b.high;
    low = scaled n.ops k.price_factor b.low;
    close = scaled n.ops k.price_factor b.close;
    volume = scaled n.ops k.qty_factor b.volume;
    symbol = or_same k.new_symbol b.symbol;
  }

  unfoldable pub adjust_bars : AdjustmentFactor F → List (Bar F) → List (Bar F)
  adjust_bars k bs = map (adjust_bar k) bs

  unfoldable pub combine : List (AdjustmentFactor F) → F → F → F × F
  combine [] price qty = (price, qty)
  combine (k ∷ ks) price qty =
      combine ks (n.ops.mul price k.price_factor) (n.ops.mul qty k.qty_factor)

  unfoldable pub adjust : AdjustmentFactor F → PositionSnapshot F → PositionAdjustmentResult F
  adjust k p =
      let qty = n.ops.mul p.qty k.qty_factor in
      let avg = n.ops.mul p.avg_price k.price_factor in
      record {
        position = record { symbol = or_text k.new_symbol p.symbol; qty = qty; avg_price = avg };
        cash_delta = n.ops.mul p.qty k.cash_per_share;
        value_before = n.ops.mul p.qty p.avg_price;
        value_after = n.ops.mul qty avg;
      }
