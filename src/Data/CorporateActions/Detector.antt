-- ===== src/Data/CorporateActions/Detector.antt =====
-- `CorporateActionDetector` of backend/data/corporate_actions.py. The text that describes the numbers
-- is an argument.
use claude_code_and_vive_cod.Prelude.{
  ℕ, Bool, not, ◌&&◌, Option, none, some, List, [], ◌∷◌, String, if◌then◌else◌,
}
use claude_code_and_vive_cod.Data.CorporateActions.{
  ActionType, split, reverse_split, unknown_type, ActionStatus, confirmed, pending, unknown_status,
  CorporateAction, Numbers,
}

module _ {F : Type 0} (n : Numbers F) where
  abbrev abs : F → F
  abs x = if n.ops.less_eq n.ops.zero_float x then x else n.ops.neg x

  abbrev apart : F → F → F
  apart a b = abs (n.ops.add a (n.ops.neg b))

  -- `max` of two doubles.
  abbrev larger : F → F → F
  larger a b = if n.ops.less_eq a b && not (n.ops.less_eq b a) then b else a

  unfoldable pub near : F → F → Bool
  near x target = n.ops.less_eq (apart x target) (n.ops.mul n.tolerance target)

  -- The first known ratio that a quantity ratio is near to, or the inverse of one.
  unfoldable pub match_quantity : F → List F → Option (ActionType × F)
  match_quantity ratio [] = none
  match_quantity ratio (r ∷ rs) =
      let rest = match_quantity ratio rs in
      if near ratio r
      then some (split, r)
      else if near ratio (n.ops.div n.one r)
      then some (reverse_split, n.ops.div n.one r)
      else rest

  -- Of a price ratio the inverse is tried first: a split lowers the price.
  unfoldable pub match_price : F → List F → Option (ActionType × F)
  match_price ratio [] = none
  match_price ratio (r ∷ rs) =
      let rest = match_price ratio rs in
      if near ratio (n.ops.div n.one r)
      then some (split, r)
      else if near ratio r
      then some (reverse_split, n.ops.div n.one r)
      else rest

  abbrev labelled :
      ActionType → ActionStatus → Option F → String → String → ℕ → String → CorporateAction F
  labelled type status ratio source symbol date detail = record {
    action_type = type;
    symbol = symbol;
    effective_date = date;
    status = status;
    ratio = ratio;
    cash_amount = none;
    new_symbol = none;
    source = source;
    detail = detail;
  }

  abbrev of_price_match : String → ℕ → String → Option (ActionType × F) → Option (CorporateAction F)
  of_price_match symbol date detail none = none
  of_price_match symbol date detail (some (type, r)) =
      some (labelled type pending (some r) "price_jump_heuristic" symbol date detail)

  abbrev price_jump : String → Option F → Option F → ℕ → String → Option (CorporateAction F)
  price_jump symbol none curr date detail = none
  price_jump symbol (some prev) none date detail = none
  price_jump symbol (some prev) (some curr) date detail =
      if n.is_positive prev && n.is_positive curr
      then of_price_match symbol date detail (match_price (n.ops.div curr prev) n.known_ratios)
      else none

  unfoldable pub detect_from_price_jump :
      String → Option F → Option F → ℕ → String → Option (CorporateAction F)
  detect_from_price_jump symbol prev_close curr_close date detail =
      price_jump symbol prev_close curr_close date detail

  unfoldable pub is_preserved : F → F → F → F → Bool
  is_preserved db_qty db_avg broker_qty broker_avg =
      let before = n.ops.mul db_qty db_avg in
      let after = n.ops.mul broker_qty broker_avg in
      n.ops.less_eq (apart after before) (larger n.tiny (n.ops.mul (abs before) n.value_tolerance))

  abbrev pub of_quantity_match :
      Bool → String → ℕ → String → Option (ActionType × F) → CorporateAction F
  of_quantity_match preserved symbol date detail none =
      labelled unknown_type unknown_status none "reconcile_signature" symbol date detail
  of_quantity_match preserved symbol date detail (some (type, r)) =
      if preserved
      then labelled type confirmed (some r) "reconcile_signature" symbol date detail
      else labelled unknown_type unknown_status none "reconcile_signature" symbol date detail

  unfoldable pub quantity_match : F → F → Option (ActionType × F)
  quantity_match db_qty broker_qty =
      if n.is_positive db_qty && n.is_positive broker_qty
      then match_quantity (n.ops.div broker_qty db_qty) n.known_ratios
      else none

  unfoldable pub classify_quantity_jump : String → F → F → F → F → ℕ → String → CorporateAction F
  classify_quantity_jump symbol db_qty db_avg broker_qty broker_avg date detail =
      of_quantity_match (is_preserved db_qty db_avg broker_qty broker_avg) symbol date detail
        (quantity_match db_qty broker_qty)
