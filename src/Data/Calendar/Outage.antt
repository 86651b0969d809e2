-- ===== src/Data/Calendar/Outage.antt =====
-- A year that the primary source cannot give and the static table does not have.
use mathlib.Core.Path.{subst, sym}
use claude_code_and_vive_cod.Prelude.{ℕ, ◌≡◌, ◌≤◌, ◌<◌, refl, inl, true, false, none, some, []}
use claude_code_and_vive_cod.Data.Calendar.{
  Service, Index, krx, krx_open, krx_close, weekday, ensure_holidays_loaded, index_all, get_holiday,
  window_of, pre_open,
}
use claude_code_and_vive_cod.Data.Calendar.Permission.{check_order_permission}
use claude_code_and_vive_cod.Data.Calendar.Permits.{Permits, check_order_permission-Permits}

module _ (c : Service) (t : ℕ) (x : Index)
    (fails : c.primary.get_holidays krx (c.year_of (c.zones.local_date krx t)) ≡ none)
    (lacks : c.fallback.get_holidays krx (c.year_of (c.zones.local_date krx t)) ≡ some [])
    (fresh : x.loaded krx (c.year_of (c.zones.local_date krx t)) ≡ false)
    (unknown : x.holidays krx (c.zones.local_date krx t) ≡ none) where
  no_holiday : (get_holiday c krx (c.zones.local_date krx t) x).0 ≡ none
  unfolding get_holiday ensure_holidays_loaded index_all
  no_holiday = rw (fresh, fails, lacks) unknown

  -- If the primary source fails, the static table has no day of the year, and nothing of the year
  -- is indexed, then an order at the Korean exchange is permitted at any time of the regular
  -- hours, which start no earlier than the pre-market, of every weekday, a holiday or not.
  pub check_order_permission-outage :
      weekday (c.zones.local_date krx t) < 5
      → c.zones.utc_of krx (c.zones.local_date krx t) (pre_open krx) ≤ t
      → c.zones.utc_of krx (c.zones.local_date krx t) krx_open ≤ t
      → t ≤ c.zones.utc_of krx (c.zones.local_date krx t) krx_close
      → (check_order_permission c krx t x).0.allowed ≡ true
  unfolding window_of
  check_order_permission-outage week started opened unclosed =
      (check_order_permission-Permits c krx t x).1
        (subst (Permits c krx t) (sym no_holiday) (week, refl, started, inl (opened, unclosed)))
