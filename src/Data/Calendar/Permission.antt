-- ===== src/Data/Calendar/Permission.antt =====
-- The permission check of backend/data/calendar.py, and the walks to the next and to the last
-- trading day, which look at 31 days.
use claude_code_and_vive_cod.Prelude.{
  ℕ, zero, suc, ◌+◌, ◌-◌, Bool, true, false, not, Option, none, some, String, ltb, leb,
  if◌then◌else◌,
}
use claude_code_and_vive_cod.Data.Calendar.{
  Market, SessionType, pre_market, regular, after_hours, closed, BlockReason, holiday,
  half_day_ended, wrong_session, MarketHoliday, SessionWindow, TradingPermission, Service, Index,
  weekday, closes_early, get_holiday, is_trading_day, get_session_window, get_session,
}

abbrev pub opens_after : ℕ → Option SessionWindow → Option ℕ
opens_after t none = none
opens_after t (some w) = if ltb t w.open_utc then some w.open_utc else none

-- The opening of a day's session, if it is later than `t`.
unfoldable pub opening_on : Service → Market → ℕ → ℕ → Index → Option ℕ × Index
opening_on c m t d x =
    if leb 5 (weekday d)
    then (none, x)
    else let (w, x') = get_session_window c m d x in (opens_after t w, x')

-- An answer, or the walk from the next day on.
abbrev pub or_walk : (Index → Option ℕ × Index) → Option ℕ × Index → Option ℕ × Index
or_walk walk (some d, x) = (some d, x)
or_walk walk (none, x) = walk x

-- `none` is the `ValueError` after the last day.
unfoldable pub next_open_from : Service → Market → ℕ → ℕ → ℕ → Index → Option ℕ × Index
next_open_from c m t zero d x = (none, x)
next_open_from c m t (suc days) d x =
    let walk = λ (y : Index). next_open_from c m t days (d + 1) y in
    or_walk walk (opening_on c m t d x)

unfoldable pub next_session_open : Service → Market → ℕ → Index → Option ℕ × Index
next_session_open c m t x = next_open_from c m t 31 (c.zones.local_date m t) x

unfoldable pub trading_on : Service → Market → ℕ → Index → Option ℕ × Index
trading_on c m d x =
    let (trading, x') = is_trading_day c m d x in if trading then (some d, x') else (none, x')

unfoldable pub prev_trading_from : Service → Market → ℕ → ℕ → Index → Option ℕ × Index
prev_trading_from c m zero d x = (none, x)
prev_trading_from c m (suc days) d x =
    let walk = λ (y : Index). prev_trading_from c m days (d - 1) y in
    or_walk walk (trading_on c m d x)

unfoldable pub prev_trading_day : Service → Market → ℕ → Index → Option ℕ × Index
prev_trading_day c m before x = prev_trading_from c m 31 (before - 1) x

abbrev name_of : Option MarketHoliday → Option String
name_of none = none
name_of (some h) = some h.name

-- A refusal, with the next opening if there is one.
unfoldable pub block :
    Service
    → Market
    → ℕ
    → SessionType
    → BlockReason
    → Option String
    → Index
    → TradingPermission × Index
block c m t session reason name x =
    let (next, x') = next_session_open c m t x in
    (
      record {
        allowed = false;
        session_type = session;
        block_reason = some reason;
        holiday_name = name;
        next_open_utc = next;
      },
      x',
    )

unfoldable pub allow : SessionType → Index → TradingPermission × Index
allow session x = (
  record {
    allowed = true;
    session_type = session;
    block_reason = none;
    holiday_name = none;
    next_open_utc = none;
  },
  x,
)

-- The answer for a day that is no full holiday, by the session.
unfoldable pub by_session :
    Service → Market → ℕ → Option MarketHoliday → SessionType → Index → TradingPermission × Index
by_session c m t h regular x = allow regular x
by_session c m t h after_hours x =
    if closes_early h
    then block c m t after_hours half_day_ended (name_of h) x
    else if c.allow_afterhours
    then allow after_hours x
    else block c m t after_hours wrong_session none x
by_session c m t h pre_market x =
    if c.allow_premarket then allow pre_market x else block c m t pre_market wrong_session none x
by_session c m t h closed x = block c m t closed wrong_session none x

abbrev pub closes_fully : Option MarketHoliday → Bool
closes_fully none = false
closes_fully (some h) = not h.is_early_close

unfoldable pub check_order_permission : Service → Market → ℕ → Index → TradingPermission × Index
check_order_permission c m t x =
    let (h, x') = get_holiday c m (c.zones.local_date m t) x in
    let (session, x'') = get_session c m t x' in
    if closes_fully h
    then block c m t closed holiday (name_of h) x'
    else by_session c m t h session x''

-- `assert_tradeable`: the error that it raises, if it raises.
pub record MarketClosedError : Type 0 where
  pub market : Market
  pub session : SessionType
  pub reason : BlockReason
  pub next_open_utc : Option ℕ

abbrev reason_or_wrong : Option BlockReason → BlockReason
reason_or_wrong none = wrong_session
reason_or_wrong (some r) = r

unfoldable pub assert_tradeable : Service → Market → ℕ → Index → Option MarketClosedError × Index
assert_tradeable c m t x =
    let (perm, x') = check_order_permission c m t x in
    if perm.allowed then (none, x') else (
      some record {
        market = m;
        session = perm.session_type;
        reason = reason_or_wrong perm.block_reason;
        next_open_utc = perm.next_open_utc;
      },
      x',
    )
