-- ===== src/Data/Calendar/Walks.antt =====
-- Where the walks over 31 days end.
use claude_code_and_vive_cod.Prelude.{
  ℕ, zero, suc, ◌+◌, ◌⊎◌, ◌≡◌, ◌<◌, inl, inr, Option, none, some, arith, Bool-cases, leb,
}
use claude_code_and_vive_cod.Data.Calendar.{
  Market, Service, SessionWindow, Index, weekday, get_session_window,
}
use claude_code_and_vive_cod.Data.Calendar.Permission.{
  opens_after, opening_on, or_walk, next_open_from, next_session_open,
}

opens_after-lt : (t : ℕ) (w : Option SessionWindow) {o : ℕ} → opens_after t w ≡ some o → t < o
opens_after-lt t none h = cc
opens_after-lt t (some w) h = ground arith

opening_on-lt :
    (c : Service) (m : Market) (t d : ℕ) (x : Index) {o : ℕ}
    → (opening_on c m t d x).0 ≡ some o
    → t < o
unfolding opening_on
opening_on-lt c m t d x h = elim (Bool-cases (leb 5 (weekday d))) [
  | inl weekend ↦ cc (rw weekend at h)
  | inr week ↦ opens_after-lt t (get_session_window c m d x).0 (rw week at h)
]

or_walk-cases :
    (walk : Index → Option ℕ × Index) (found : Option ℕ × Index) {o : ℕ}
    → (or_walk walk found).0 ≡ some o
    → (found.0 ≡ some o) ⊎ ((walk found.1).0 ≡ some o)
or_walk-cases walk (some d, x) h = inl h
or_walk-cases walk (none, x) h = inr h

next_open_from-lt :
    (c : Service) (m : Market) (t days d : ℕ) (x : Index) {o : ℕ}
    → (next_open_from c m t days d x).0 ≡ some o
    → t < o
unfolding next_open_from
next_open_from-lt c m t zero d x h = cc
next_open_from-lt c m t (suc days) d x h =
    elim (or_walk-cases (λ (y : Index). next_open_from c m t days (d + 1) y) (opening_on c m t d x)
      h) [
        | inl here ↦ opening_on-lt c m t d x here
        | inr later ↦ next_open_from-lt c m t days (d + 1) (opening_on c m t d x).1 later
      ]

-- The next opening lies after the time that was asked about.
pub next_session_open-lt :
    (c : Service) (m : Market) (t : ℕ) (x : Index) {o : ℕ}
    → (next_session_open c m t x).0 ≡ some o
    → t < o
unfolding next_session_open
next_session_open-lt c m t x h = next_open_from-lt c m t 31 (c.zones.local_date m t) x h
