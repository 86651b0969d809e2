-- ===== src/Data/CorporateActions/Service.antt =====
-- `CorporateActionService` of backend/data/corporate_actions.py, with its gate and its history. The
-- audit rows are the events, the latest first.
use claude_code_and_vive_cod.Prelude.{
  ℕ, Bool, ◌&&◌, ◌||◌, Option, none, some, List, [], ◌∷◌, ◌++◌, String, str_eq, if◌then◌else◌,
}
use claude_code_and_vive_cod.Dict.{Dict, lookup, insert, erase}
use claude_code_and_vive_cod.Data.CorporateActions.{
  CorporateAction, is_confirmed, Numbers, AdjustmentFactor, PositionSnapshot,
  PositionAdjustmentResult, Bar, is_supported, is_valid, classified, action_eq, factor_for,
  adjust_bars, adjust,
}
use claude_code_and_vive_cod.Data.CorporateActions.Detector.{detect_from_price_jump}

pub data EventType : Type 0 where
  detected registered applied blocked : EventType

pub record AdjustmentRecord (F : Type 0) : Type 0 where
  pub symbol : String
  pub action : CorporateAction F
  pub factor : AdjustmentFactor F
  pub position_before : Option (PositionSnapshot F)
  pub result : Option (PositionAdjustmentResult F)

-- The registry by symbol, each list the oldest first; the history, the oldest first.
pub record Service (F : Type 0) : Type 0 where
  pub pending : Dict (List (CorporateAction F))
  pub history : List (AdjustmentRecord F)
  pub audits : List (EventType × CorporateAction F)

pub record ApplyResult (F : Type 0) : Type 0 where
  pub action : CorporateAction F
  pub factor : AdjustmentFactor F
  pub adjusted_bars : Option (List (Bar F))
  pub position_result : Option (PositionAdjustmentResult F)

-- `UnsupportedCorporateActionError` or the result.
pub data Applied (F : Type 0) : Type 0 where
  unsupported : CorporateAction F → Applied F
  done : ApplyResult F → Applied F

abbrev pub or_empty {ℓ} : {A : Type ℓ} → Option (List A) → List A
or_empty none = []
or_empty (some xs) = xs

module _ {F : Type 0} where
  unfoldable pub pending_for : String → Service F → List (CorporateAction F)
  pending_for symbol s = or_empty (lookup symbol s.pending)

  abbrev pub add_pending : CorporateAction F → Service F → Service F
  add_pending a s = record s {
    pending = insert a.symbol (pending_for a.symbol s ++ (a ∷ [])) s.pending;
  }

  abbrev pub audit : EventType → CorporateAction F → Service F → Service F
  audit event a s = record s { audits = (event, a) ∷ s.audits }

  unfoldable pub restore_pending : List (CorporateAction F) → Service F → Service F
  restore_pending [] s = s
  restore_pending (a ∷ more) s = restore_pending more (add_pending a s)

  -- `is_blocking`
  unfoldable pub is_blocking : Bool → CorporateAction F → Bool
  is_blocking block_on_unconfirmed a = is_confirmed a.status || block_on_unconfirmed

  -- The action that the gate raises on.
  unfoldable pub first_blocking : Bool → List (CorporateAction F) → Option (CorporateAction F)
  first_blocking strict [] = none
  first_blocking strict (a ∷ more) =
      if is_blocking strict a then some a else first_blocking strict more

  abbrev pub note_block :
      Option (CorporateAction F) → Service F → Option (CorporateAction F) × Service F
  note_block none s = (none, s)
  note_block (some a) s = (some a, audit blocked a s)

  -- The error's action, or `none`.
  unfoldable pub assert_tradeable :
      Bool → String → Service F → Option (CorporateAction F) × Service F
  assert_tradeable strict symbol s = note_block (first_blocking strict (pending_for symbol s)) s

  unfoldable pub reset : Option String → Service F → Service F
  reset none s = record s { pending = [] }
  reset (some symbol) s = record s { pending = erase symbol s.pending }

  unfoldable pub records_of : String → List (AdjustmentRecord F) → List (AdjustmentRecord F)
  records_of symbol [] = []
  records_of symbol (r ∷ rs) =
      let rest = records_of symbol rs in if str_eq r.symbol symbol then r ∷ rest else rest

  unfoldable pub history_for : Option String → Service F → List (AdjustmentRecord F)
  history_for none s = s.history
  history_for (some symbol) s = records_of symbol s.history

  unfoldable pub clear_history : Service F → Service F
  clear_history s = record s { history = [] }

module _ {F : Type 0} (n : Numbers F) where
  unfoldable pub register_action : CorporateAction F → Service F → CorporateAction F × Service F
  register_action a s = let c = classified n a in (c, audit registered c (add_pending c s))

  abbrev note_detected :
      Option (CorporateAction F) → Service F → Option (CorporateAction F) × Service F
  note_detected none s = (none, s)
  note_detected (some a) s = (some a, audit detected a (add_pending a s))

  -- The two bars' closes, and the date of the later one.
  unfoldable pub detect_from_bars :
      String → Bar F → Bar F → ℕ → String → Service F → Option (CorporateAction F) × Service F
  detect_from_bars symbol prev curr date detail s =
      note_detected (detect_from_price_jump n symbol prev.close curr.close date detail) s

  -- `lst.remove(action)`: the first that is equal.
  unfoldable pub remove_first :
      CorporateAction F → List (CorporateAction F) → List (CorporateAction F)
  remove_first a [] = []
  remove_first a (b ∷ bs) = let rest = remove_first a bs in if action_eq n b a then bs else b ∷ rest

  abbrev pub removed_from :
      CorporateAction F → Option (List (CorporateAction F)) → Service F → Service F
  removed_from a none s = s
  removed_from a (some more) s = record s {
    pending = insert a.symbol (remove_first a more) s.pending;
  }

  unfoldable pub remove_pending : CorporateAction F → Service F → Service F
  remove_pending a s = removed_from a (lookup a.symbol s.pending) s

  abbrev adjusted_by :
      AdjustmentFactor F → Option (PositionSnapshot F) → Option (PositionAdjustmentResult F)
  adjusted_by k none = none
  adjusted_by k (some p) = some (adjust n k p)

  abbrev bars_by : AdjustmentFactor F → Option (List (Bar F)) → Option (List (Bar F))
  bars_by k none = none
  bars_by k (some bs) = some (adjust_bars n k bs)

  abbrev record_history : CorporateAction F → Option (PositionSnapshot F) → Service F → Service F
  record_history a position s =
      let k = factor_for n a in
      let entry : AdjustmentRecord F = record {
        symbol = a.symbol;
        action = a;
        factor = k;
        position_before = position;
        result = adjusted_by k position;
      } in
      record s { history = s.history ++ (entry ∷ []) }

  unfoldable pub apply :
      CorporateAction F
      → Option (List (Bar F))
      → Option (PositionSnapshot F)
      → Service F
      → Applied F × Service F
  apply a bars position s =
      let k = factor_for n a in
      if is_supported a.action_type && is_valid n a
      then (
        done (record {
          action = a;
          factor = k;
          adjusted_bars = bars_by k bars;
          position_result = adjusted_by k position;
        }),
        audit applied a (record_history a position (remove_pending a s)),
      )
      else let c = classified n a in (unsupported c, audit blocked c s)

  abbrev next_position :
      Option (PositionAdjustmentResult F)
      → Option (PositionSnapshot F)
      → Option (PositionSnapshot F)
  next_position none p = p
  next_position (some r) p = some r.position

  abbrev next_bars : Option (List (Bar F)) → Option (List (Bar F)) → Option (List (Bar F))
  next_bars none bs = bs
  next_bars (some bs) old = some bs

  -- Each step's bars and position go into the next; a refused action ends the chain.
  unfoldable pub apply_chain :
      List (CorporateAction F)
      → Option (List (Bar F))
      → Option (PositionSnapshot F)
      → Service F
      → List (Applied F) × Service F
  apply_chain [] bars position s = ([], s)
  apply_chain (a ∷ more) bars position s =
      let (answer, t) = apply a bars position s in
      elim answer [
        | unsupported c ↦ (unsupported c ∷ [], t)
        | done r ↦
            let rest =
              apply_chain more (next_bars r.adjusted_bars bars)
                (next_position r.position_result position) t in
            (done r ∷ rest.0, rest.1)
      ]
