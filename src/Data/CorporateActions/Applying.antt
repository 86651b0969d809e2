-- ===== src/Data/CorporateActions/Applying.antt =====
-- `record_action` and `mark_applied` of backend/data/corporate_action_runtime.py together: what an
-- apply opens again.
use claude_code_and_vive_cod.Prelude.{
  ◌≡◌, refl, ap, ◌∙◌, Bool, true, false, ◌&&◌, [], ◌∷◌, ◌++◌, eq_refl,
}
use claude_code_and_vive_cod.Data.CorporateActions.{
  ActionType, split, reverse_split, cash_dividend, ticker_change, unknown_type, CorporateAction,
  Numbers, fields_valid, is_valid, is_supported, action_eq,
}
use claude_code_and_vive_cod.Data.CorporateActions.Service.{
  pending_for, register_action, remove_first, apply,
}
use claude_code_and_vive_cod.Data.CorporateActions.Runtime.{
  HistoryRow, Runtime, stored, is_blocked, record_action, mark_applied,
}
use claude_code_and_vive_cod.Data.CorporateActions.Gate.{
  is_nonempty, is_blocked-pending, pending-add, several, several-append, remove_first-several,
  remove_pending-pending, valid-classified,
}

module _ {F : Type 0} (n : Numbers F) where
  fields_valid-supported :
      (ty : ActionType) (a : CorporateAction F)
      → fields_valid n ty a ≡ true
      → is_supported ty ≡ true
  fields_valid-supported split a h = refl
  fields_valid-supported reverse_split a h = refl
  fields_valid-supported cash_dividend a h = refl
  fields_valid-supported ticker_change a h = refl
  fields_valid-supported unknown_type a h = cc

  valid-supported :
      (a : CorporateAction F)
      → is_valid n a ≡ true
      → (is_supported a.action_type && is_valid n a) ≡ true
  unfolding is_valid
  valid-supported a h = rw (fields_valid-supported a.action_type a h, h) refl

  stored-service : (up : Bool) (t : Runtime F) (rows : _) → (stored up t rows).service ≡ t.service
  stored-service true t rows = refl
  stored-service false t rows = refl

  -- What is pending after one record of a valid action.
  recorded-pending :
      (up : Bool) (a : CorporateAction F) (t : Runtime F)
      → is_valid n a ≡ true
      → pending_for a.symbol (record_action n up a t).service
        ≡ pending_for a.symbol t.service ++ (a ∷ [])
  unfolding record_action register_action pending_for
  recorded-pending up a t valid =
      let (c, s) = register_action n a t.service in
      ap (pending_for a.symbol) (stored-service up (record t { service = s }) _)
      ∙ rw (valid-classified n a valid, pending-add a a.symbol t.service, eq_refl a.symbol) refl

  applied-pending :
      (up : Bool) (a : CorporateAction F) (entry : HistoryRow F) (t : Runtime F)
      → is_valid n a ≡ true
      → pending_for a.symbol (mark_applied n up a entry t).service
        ≡ remove_first n a (pending_for a.symbol t.service)
  unfolding mark_applied apply pending_for
  applied-pending true a entry t valid =
      rw (valid-supported a valid) (remove_pending-pending n a t.service)
  applied-pending false a entry t valid =
      rw (valid-supported a valid) (remove_pending-pending n a t.service)

  pub mark_applied-record_action :
      (up up' : Bool) (a : CorporateAction F) (entry : HistoryRow F) (t : Runtime F)
      → is_valid n a ≡ true
      → action_eq n a a ≡ true
      → pending_for a.symbol t.service ≡ []
      → (is_blocked a.symbol (mark_applied n up a entry (record_action n up' a t))).0 ≡ false
  unfolding remove_first
  mark_applied-record_action up up' a entry t valid reflexive empty =
      let recorded = record_action n up' a t in
      let left : pending_for a.symbol (mark_applied n up a entry recorded).service ≡ [] =
        applied-pending up a entry recorded valid
        ∙ rw (recorded-pending up' a t valid, empty, reflexive) refl in
      is_blocked-pending a.symbol (mark_applied n up a entry recorded) ∙ ap is_nonempty left

  -- A valid action that was recorded twice still blocks its symbol after it is marked as applied,
  -- whichever of the writes to the table go through.
  pub mark_applied-recorded_twice :
      (up first second : Bool) (a : CorporateAction F) (entry : HistoryRow F) (t : Runtime F)
      → is_valid n a ≡ true
      → (is_blocked a.symbol
          (mark_applied n up a entry (record_action n second a (record_action n first a t)))).0
        ≡ true
  mark_applied-recorded_twice up first second a entry t valid =
      let once = record_action n first a t in
      let twice = record_action n second a once in
      let earlier = pending_for a.symbol t.service in
      is_blocked-pending a.symbol (mark_applied n up a entry twice)
      ∙ ap is_nonempty (applied-pending up a entry twice valid)
      ∙ remove_first-several n a (pending_for a.symbol twice.service) (
          ap (several n) (
            recorded-pending second a once valid
            ∙ ap (λ xs. xs ++ (a ∷ [])) (recorded-pending first a t valid))
          ∙ several-append n earlier a a)
