-- ===== src/Data/CorporateActions/Runtime.antt =====
-- `CorporateActionRuntime` of backend/data/corporate_action_runtime.py: the service with a table
-- that outlives it. The rows are those of the runtime's broker. A database is configured, and each
-- call says whether it answers.
use claude_code_and_vive_cod.Prelude.{
  ℕ, Bool, true, ◌&&◌, Option, none, some, List, [], ◌∷◌, String, str_eq, ◌==◌, is_some,
  if◌then◌else◌,
}
use claude_code_and_vive_cod.Data.CorporateActions.{CorporateAction, ActionStatus, type_eq, Numbers}
use claude_code_and_vive_cod.Data.CorporateActions.Detector.{classify_quantity_jump}
use claude_code_and_vive_cod.Data.CorporateActions.Service.{
  Service, Applied, unsupported, done, register_action, apply, assert_tradeable, restore_pending,
}

-- A row's status: a status of the action, or `applied`.
pub data RowStatus : Type 0 where
  blocking : ActionStatus → RowStatus
  applied_row : RowStatus

pub record CaRow (F : Type 0) : Type 0 where
  pub action : CorporateAction F
  pub status : RowStatus

-- The columns of the history that a run fills in.
pub record HistoryRow (F : Type 0) : Type 0 where
  pub symbol : String
  pub qty_before : F
  pub avg_before : F
  pub qty_after : F
  pub avg_after : F

pub record Runtime (F : Type 0) : Type 0 where
  pub service : Service F
  pub rows : List (CaRow F)
  pub history : List (HistoryRow F)

module _ {F : Type 0} where
  unfoldable pub same_key : CorporateAction F → CaRow F → Bool
  same_key a r =
      str_eq r.action.symbol a.symbol
      && (r.action.effective_date == a.effective_date && type_eq r.action.action_type a.action_type)

  -- The row that is there keeps its other columns.
  abbrev pub refreshed : CorporateAction F → CaRow F → CaRow F
  refreshed a r = record {
    action = record (r.action) { status = a.status; ratio = a.ratio; detail = a.detail };
    status = blocking a.status;
  }

  unfoldable pub upsert : CorporateAction F → List (CaRow F) → List (CaRow F)
  upsert a [] = record { action = a; status = blocking a.status } ∷ []
  upsert a (r ∷ rs) =
      let rest = upsert a rs in if same_key a r then refreshed a r ∷ rs else r ∷ rest

  unfoldable pub close_row : CorporateAction F → List (CaRow F) → List (CaRow F)
  close_row a [] = []
  close_row a (r ∷ rs) =
      let rest = close_row a rs in
      if same_key a r then record r { status = applied_row } ∷ rs else r ∷ rest

  -- `_row_to_action`
  abbrev pub row_to_action : CorporateAction F → CorporateAction F
  row_to_action a = record a { source = if str_eq a.source "" then "restored" else a.source }

  abbrev pub keep_blocking :
      RowStatus → CorporateAction F → List (CorporateAction F) → List (CorporateAction F)
  keep_blocking (blocking s) a rest = row_to_action a ∷ rest
  keep_blocking applied_row a rest = rest

  -- The actions of the rows that still block.
  unfoldable pub blocking_actions : List (CaRow F) → List (CorporateAction F)
  blocking_actions [] = []
  blocking_actions (r ∷ rs) = keep_blocking r.status r.action (blocking_actions rs)

  abbrev pub stored : Bool → Runtime F → List (CaRow F) → Runtime F
  stored db_up t rows = if db_up then record t { rows = rows } else t

  -- `none` is the error that the caller fails closed on.
  unfoldable pub restore : Bool → Runtime F → Option (Runtime F)
  restore db_up t =
      if db_up
      then some (record t { service = restore_pending (blocking_actions t.rows) t.service })
      else none

  unfoldable pub is_blocked : String → Runtime F → Bool × Runtime F
  is_blocked symbol t =
      let (error, s) = assert_tradeable true symbol t.service in
      (is_some error, record t { service = s })

module _ {F : Type 0} (n : Numbers F) where
  unfoldable pub classify_broker_jump : String → F → F → F → F → ℕ → String → CorporateAction F
  classify_broker_jump symbol db_qty db_avg broker_qty broker_avg date detail =
      classify_quantity_jump n symbol db_qty db_avg broker_qty broker_avg date detail

  unfoldable pub record_action : Bool → CorporateAction F → Runtime F → Runtime F
  record_action db_up a t =
      let (c, s) = register_action n a t.service in
      stored db_up (record t { service = s }) (upsert c t.rows)

  abbrev pub applied_or_not :
      Bool → CorporateAction F → HistoryRow F → Runtime F → Applied F × Service F → Runtime F
  applied_or_not db_up a entry t (unsupported c, s) = record t { service = s }
  applied_or_not db_up a entry t (done r, s) =
      let kept : Runtime F = record t { service = s } in
      if db_up then record kept { rows = close_row a t.rows; history = entry ∷ t.history } else kept

  unfoldable pub mark_applied : Bool → CorporateAction F → HistoryRow F → Runtime F → Runtime F
  mark_applied db_up a entry t = applied_or_not db_up a entry t (apply n a none none t.service)
