-- ===== src/Data/Calendar/Permits.antt =====
-- Which orders the permission check lets through.
use claude_code_and_vive_cod.Prelude.{
  ℕ, ◌≡◌, ◌≤◌, ◌<◌, refl, ap, ◌↔◌, ◌⊎◌, inl, inr, Bool, true, false, not, ◌&&◌, Option, none, some,
  List, arith, Bool-cases, leb,
}
use claude_code_and_vive_cod.Data.Calendar.{
  Market, SessionType, pre_market, regular, after_hours, closed, MarketHoliday, SessionWindow,
  Service, Index, weekday, market_eq, krx, nyse, nasdaq, either_source, load_year,
  ensure_holidays_loaded, get_holiday, is_trading_day, trades_on, closes_early, window_of,
  get_session_window, classify, get_session, pre_open, after_end,
}
use claude_code_and_vive_cod.Data.Calendar.Permission.{
  block, allow, by_session, check_order_permission, closes_fully,
}

market_eq_self : (m : Market) → market_eq m m ≡ true
market_eq_self krx = refl
market_eq_self nyse = refl
market_eq_self nasdaq = refl

load_year_idem :
    (c : Service) (m : Market) (y : ℕ) (found : Option (List MarketHoliday)) (x : Index)
    → either_source (c.primary.get_holidays m y) (c.fallback.get_holidays m y) ≡ found
    → x.loaded m y ≡ false
    → ensure_holidays_loaded c m y (load_year m y found x) ≡ load_year m y found x
unfolding ensure_holidays_loaded
load_year_idem c m y none x e n = rw (n, e) refl
load_year_idem c m y (some hs) x e n = rw (market_eq_self m) (ground arith)

ensure-loaded :
    (c : Service) (m : Market) (y : ℕ) (x : Index)
    → x.loaded m y ≡ true
    → ensure_holidays_loaded c m y x ≡ x
unfolding ensure_holidays_loaded
ensure-loaded c m y x h = rw h refl

ensure-fresh :
    (c : Service) (m : Market) (y : ℕ) (x : Index)
    → x.loaded m y ≡ false
    → ensure_holidays_loaded c m y x
      ≡ load_year m y (either_source (c.primary.get_holidays m y) (c.fallback.get_holidays m y)) x
unfolding ensure_holidays_loaded
ensure-fresh c m y x h = rw h refl

-- Loading a year twice is loading it once.
ensure_idem :
    (c : Service) (m : Market) (y : ℕ) (x : Index)
    → ensure_holidays_loaded c m y (ensure_holidays_loaded c m y x) ≡ ensure_holidays_loaded c m y x
ensure_idem c m y x = elim (Bool-cases (x.loaded m y)) [
  | inl done ↦ ap (ensure_holidays_loaded c m y) (ensure-loaded c m y x done)
  | inr fresh ↦ rw (ensure-fresh c m y x fresh) (load_year_idem c m y _ x refl fresh)
]

get_holiday_again :
    (c : Service) (m : Market) (d : ℕ) (x : Index)
    → get_holiday c m d (get_holiday c m d x).1 ≡ get_holiday c m d x
unfolding get_holiday
get_holiday_again c m d x =
    ap (λ (y : Index). (y.holidays m d, y)) (ensure_idem c m (c.year_of d) x)

closes_fully-trades : (h : Option MarketHoliday) → closes_fully h ≡ true → trades_on h ≡ false
closes_fully-trades none e = cc
closes_fully-trades (some h) e = ground arith

-- What allows a session.
abbrev permits_session : Service → Option MarketHoliday → SessionType → Bool
permits_session c h regular = true
permits_session c h after_hours = not (closes_early h) && c.allow_afterhours
permits_session c h pre_market = c.allow_premarket
permits_session c h closed = false

by_session-allowed :
    (c : Service) (m : Market) (t : ℕ) (h : Option MarketHoliday) (session : SessionType)
    (x : Index)
    → (by_session c m t h session x).0.allowed ≡ permits_session c h session
unfolding by_session block allow
by_session-allowed c m t h regular x = refl
by_session-allowed c m t h after_hours x = ground arith
by_session-allowed c m t h pre_market x = ground arith
by_session-allowed c m t h closed x = refl

-- The window of a day, once its holiday is known.
abbrev window_if : Bool → SessionWindow → Option SessionWindow
window_if true w = some w
window_if false w = none

get_session_window-known :
    (c : Service) (m : Market) (d : ℕ) (x : Index)
    → let (h, y) = get_holiday c m d x in
      get_session_window c m d y
      ≡ (window_if (not (leb 5 (weekday d)) && trades_on h) (window_of c m d h), y)
unfolding get_session_window is_trading_day
get_session_window-known c m d x =
    let again = get_holiday_again c m d x in
    elim (Bool-cases (leb 5 (weekday d))) [
      | inl weekend ↦ rw weekend refl
      | inr week ↦ elim (Bool-cases (trades_on (get_holiday c m d x).0)) [
        | inl open_day ↦ rw (week, again, again, open_day) refl
        | inr shut ↦ rw (week, again, shut) refl
      ]
    ]

-- The time lies in the regular session, or in a session that is configured as open.
abbrev pub InSession : Service → Market → ℕ → Option MarketHoliday → SessionWindow → Type 0
InSession c m t h w =
    ((w.open_utc ≤ t) × (t ≤ w.close_utc))
    ⊎ (((t < w.open_utc) × (c.allow_premarket ≡ true))
        ⊎ ((w.open_utc ≤ t)
            × (w.close_utc < t)
            × (t < c.zones.utc_of m (c.zones.local_date m t) (after_end m))
            × (closes_early h ≡ false)
            × (c.allow_afterhours ≡ true)))

classify-InSession :
    (c : Service) (m : Market) (t pre ending : ℕ) (h : Option MarketHoliday) (w : SessionWindow)
    → ending ≡ c.zones.utc_of m (c.zones.local_date m t) (after_end m)
    → (permits_session c h (classify pre ending (some w) t) ≡ true)
      ↔ ((pre ≤ t) × InSession c m t h w)
unfolding classify
classify-InSession c m t pre ending h w e = ground arith

session_known :
    (c : Service) (m : Market) (t : ℕ) (x : Index)
    → let d = c.zones.local_date m t in
      let (h, y) = get_holiday c m d x in
      (get_session c m t y).0
      ≡ classify
          (c.zones.utc_of m d (pre_open m))
          (c.zones.utc_of m d (after_end m))
          (window_if (not (leb 5 (weekday d)) && trades_on h) (window_of c m d h))
          t
unfolding get_session
session_known c m t x = rw (get_session_window-known c m (c.zones.local_date m t) x) refl

-- The weekday, the holiday and the session that an order needs.
abbrev pub Permits : Service → Market → ℕ → Option MarketHoliday → Type 0
Permits c m t h =
    let d = c.zones.local_date m t in
    (weekday d < 5)
    × (trades_on h ≡ true)
    × (c.zones.utc_of m d (pre_open m) ≤ t)
    × InSession c m t h (window_of c m d h)

allowed_days :
    (c : Service) (m : Market) (t : ℕ) (h : Option MarketHoliday)
    → let d = c.zones.local_date m t in
      (permits_session c h (
          classify
            (c.zones.utc_of m d (pre_open m))
            (c.zones.utc_of m d (after_end m))
            (window_if (not (leb 5 (weekday d)) && trades_on h) (window_of c m d h))
            t)
        ≡ true)
      ↔ Permits c m t h
unfolding classify
allowed_days c m t h =
    let d = c.zones.local_date m t in
    let k =
      classify-InSession c m t (c.zones.utc_of m d (pre_open m)) (c.zones.utc_of m d (after_end m))
        h (window_of c m d h) refl in
    elim (Bool-cases (leb 5 (weekday d))) [
      | inl weekend ↦ rw weekend (λ p. cc, λ p. absurd (ground arith))
      | inr week ↦ elim (Bool-cases (trades_on h)) [
        | inl open_day ↦
            rw (week, open_day)
              (λ p. (ground arith, refl, (k.0 p).0, (k.0 p).1), λ p. k.1 (p.2, p.3))
        | inr shut ↦ rw (week, shut) (λ p. cc, λ p. cc)
      ]
    ]

-- An order is permitted exactly if, by the index once the year is loaded, its local date is a
-- weekday and no full holiday, its time is not before the pre-market, and it lies in the day's
-- session with both ends, or before it where the pre-market is configured as open, or after it
-- and before the end of the after-hours where those are configured as open and the day is no half
-- day.
pub check_order_permission-Permits :
    (c : Service) (m : Market) (t : ℕ) (x : Index)
    → ((check_order_permission c m t x).0.allowed ≡ true)
      ↔ Permits c m t (get_holiday c m (c.zones.local_date m t) x).0
unfolding check_order_permission block
check_order_permission-Permits c m t x =
    let (h, y) = get_holiday c m (c.zones.local_date m t) x in
    let k = allowed_days c m t h in
    elim (Bool-cases (closes_fully h)) [
      | inl full ↦ rw full (λ p. cc, λ p. cc (closes_fully-trades h full, p.1))
      | inr partial ↦
          rw
            (
              partial,
              by_session-allowed c m t h (get_session c m t y).0 (get_session c m t y).1,
              session_known c m t x,
            )
            k
    ]
