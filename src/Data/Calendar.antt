-- ===== src/Data/Calendar.antt =====
-- `CalendarService` of backend/data/calendar.py. A date is its ordinal, a time of day its minute,
-- and a time in UTC counts microseconds. The zone database is a parameter that does not fail, so
-- the fail-closed `except` of `check_order_permission` is not reached; the two-layer cache, which
-- no answer depends on, is left out.
pub mod Permission
pub mod Permits
pub mod Outage
pub mod Walks
use claude_code_and_vive_cod.Prelude.{
  ℕ, ◌+◌, ◌-◌, ◌%◌, Bool, true, false, ◌&&◌, ◌||◌, Option, none, some, List, [], ◌∷◌, String, ltb,
  leb, ◌==◌, if◌then◌else◌,
}

pub data Market : Type 0 where
  krx nyse nasdaq : Market

pub data SessionType : Type 0 where
  pre_market regular after_hours closed : SessionType

pub data BlockReason : Type 0 where
  holiday half_day_ended wrong_session cache_failure : BlockReason

pub record MarketHoliday : Type 0 where
  pub date : ℕ
  pub name : String
  pub is_early_close : Bool
  pub early_close_time : Option ℕ

pub record SessionWindow : Type 0 where
  pub open_utc : ℕ
  pub close_utc : ℕ

pub record TradingPermission : Type 0 where
  pub allowed : Bool
  pub session_type : SessionType
  pub block_reason : Option BlockReason
  pub holiday_name : Option String
  pub next_open_utc : Option ℕ

-- What `TimezoneHandler` takes from pytz: the local date of a time, and the time of a local date
-- and minute.
pub record Zones : Type 0 where
  pub local_date : Market → ℕ → ℕ
  pub utc_of : Market → ℕ → ℕ → ℕ

-- What a data source answers; `none` is an exception.
pub record Source : Type 0 where
  pub get_holidays : Market → ℕ → Option (List MarketHoliday)
  pub get_window : Market → ℕ → Option (Option SessionWindow)

-- `year_of` is `date.year`.
pub record Service : Type 0 where
  pub zones : Zones
  pub primary : Source
  pub fallback : Source
  pub year_of : ℕ → ℕ
  pub allow_premarket : Bool
  pub allow_afterhours : Bool

-- The holiday index and the years that are loaded.
pub record Index : Type 0 where
  pub holidays : Market → ℕ → Option MarketHoliday
  pub loaded : Market → ℕ → Bool

abbrev market_rank : Market → ℕ
market_rank krx = 0
market_rank nyse = 1
market_rank nasdaq = 2

abbrev pub market_eq : Market → Market → Bool
market_eq a b = market_rank a == market_rank b

-- The opening and closing minutes of the exchanges.
abbrev pub krx_pre_open : ℕ
krx_pre_open = 480

abbrev pub krx_open : ℕ
krx_open = 540

abbrev pub krx_close : ℕ
krx_close = 930

abbrev pub krx_after_end : ℕ
krx_after_end = 1080

abbrev pub nyse_pre_open : ℕ
nyse_pre_open = 240

abbrev pub nyse_open : ℕ
nyse_open = 570

abbrev pub nyse_close : ℕ
nyse_close = 960

abbrev pub nyse_early_close : ℕ
nyse_early_close = 780

abbrev pub nyse_after_end : ℕ
nyse_after_end = 1200

-- `date.weekday`: Monday is 0.
abbrev pub weekday : ℕ → ℕ
weekday d = (d + 6) % 7

abbrev put_holiday : Market → MarketHoliday → Index → Index
put_holiday m h x = record x {
  holidays = λ n d. if market_eq m n && h.date == d then some h else x.holidays n d;
}

unfoldable pub index_all : Market → List MarketHoliday → Index → Index
index_all m [] x = x
index_all m (h ∷ hs) x = index_all m hs (put_holiday m h x)

abbrev mark_loaded : Market → ℕ → Index → Index
mark_loaded m y x = record x { loaded = λ n z. (market_eq m n && y == z) || x.loaded n z }

-- The holidays of the primary source, or else of the fallback.
abbrev pub either_source :
    Option (List MarketHoliday) → Option (List MarketHoliday) → Option (List MarketHoliday)
either_source none second = second
either_source (some hs) second = some hs

abbrev load_year : Market → ℕ → Option (List MarketHoliday) → Index → Index
load_year m y none x = x
load_year m y (some hs) x = mark_loaded m y (index_all m hs x)

unfoldable pub ensure_holidays_loaded : Service → Market → ℕ → Index → Index
ensure_holidays_loaded c m y x =
    if x.loaded m y
    then x
    else load_year m y (either_source (c.primary.get_holidays m y) (c.fallback.get_holidays m y)) x

unfoldable pub get_holiday : Service → Market → ℕ → Index → Option MarketHoliday × Index
get_holiday c m d x = let x' = ensure_holidays_loaded c m (c.year_of d) x in (x'.holidays m d, x')

-- No holiday, or a half day.
abbrev pub trades_on : Option MarketHoliday → Bool
trades_on none = true
trades_on (some h) = h.is_early_close

unfoldable pub is_trading_day : Service → Market → ℕ → Index → Bool × Index
is_trading_day c m d x =
    if leb 5 (weekday d) then (false, x) else let (h, x') = get_holiday c m d x in (trades_on h, x')

abbrev pub closes_early : Option MarketHoliday → Bool
closes_early none = false
closes_early (some h) = h.is_early_close

unfoldable pub is_early_close : Service → Market → ℕ → Index → Bool × Index
is_early_close c m d x = let (h, x') = get_holiday c m d x in (closes_early h, x')

abbrev minute_or : ℕ → Option ℕ → ℕ
minute_or otherwise none = otherwise
minute_or otherwise (some t) = t

abbrev krx_closing : Option MarketHoliday → ℕ
krx_closing none = krx_close
krx_closing (some h) =
    if h.is_early_close then minute_or krx_close h.early_close_time else krx_close

abbrev nyse_closing : Option MarketHoliday → ℕ
nyse_closing h = if closes_early h then nyse_early_close else nyse_close

abbrev pub fixed_window : Service → Market → ℕ → ℕ → ℕ → SessionWindow
fixed_window c m d opening closing = record {
  open_utc = c.zones.utc_of m d opening;
  close_utc = c.zones.utc_of m d closing;
}

abbrev primary_window : Option (Option SessionWindow) → SessionWindow → SessionWindow
primary_window (some (some w)) fixed = w
primary_window (some none) fixed = fixed
primary_window none fixed = fixed

-- The session of a trading day.
unfoldable pub window_of : Service → Market → ℕ → Option MarketHoliday → SessionWindow
window_of c krx d h = fixed_window c krx d krx_open (krx_closing h)
window_of c nyse d h =
    primary_window (c.primary.get_window nyse d) (fixed_window c nyse d nyse_open (nyse_closing h))
window_of c nasdaq d h =
    primary_window (c.primary.get_window nasdaq d)
      (fixed_window c nasdaq d nyse_open (nyse_closing h))

unfoldable pub get_session_window : Service → Market → ℕ → Index → Option SessionWindow × Index
get_session_window c m d x =
    let (trading, x') = is_trading_day c m d x in
    let (h, x'') = get_holiday c m d x' in
    if trading then (some (window_of c m d h), x'') else (none, x')

abbrev pub pre_open : Market → ℕ
pre_open krx = krx_pre_open
pre_open nyse = nyse_pre_open
pre_open nasdaq = nyse_pre_open

abbrev pub after_end : Market → ℕ
after_end krx = krx_after_end
after_end nyse = nyse_after_end
after_end nasdaq = nyse_after_end

-- The session of a time, between the start of the pre-market and the end of the after-hours.
unfoldable pub classify : ℕ → ℕ → Option SessionWindow → ℕ → SessionType
classify pre_start ending none t = closed
classify pre_start ending (some w) t =
    if ltb t pre_start
    then closed
    else if ltb t w.open_utc
    then pre_market
    else if leb t w.close_utc
    then regular
    else if ltb t ending
    then after_hours
    else closed

unfoldable pub get_session : Service → Market → ℕ → Index → SessionType × Index
get_session c m t x =
    let d = c.zones.local_date m t in
    let (w, x') = get_session_window c m d x in
    (classify (c.zones.utc_of m d (pre_open m)) (c.zones.utc_of m d (after_end m)) w t, x')
