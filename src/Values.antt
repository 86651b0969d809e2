-- ===== src/Values.antt =====
-- Python values as the code meets them where it distrusts a type: `isinstance`, `float(x)`,
-- `math.isfinite` and `int(x)` of the language, with doubles rounded half to even.
use claude_code_and_vive_cod.Prelude.{
  ℕ, zero, suc, ◌+◌, ◌*◌, ◌/◌, ◌%◌, ◌^◌, ◌<◌, ◌≡◌, refl, Bool, true, false, ◌&&◌, ◌||◌, not, Option,
  none, some, String, ℤ, pos, negsuc, arith, ltb, leb, ◌==◌, if◌then◌else◌,
}

-- A double as the code observes it. `finite negative whole fraction` has the given sign, the whole
-- number `whole` that truncation leaves, and `fraction` says whether anything was cut off.
pub data PyFloat : Type 0 where
  nan : PyFloat
  infinite : Bool → PyFloat
  finite : Bool → ℕ → Bool → PyFloat

pub data PyValue : Type 0 where
  none_value : PyValue
  bool_value : Bool → PyValue
  text_value : String → PyValue
  int_value : ℤ → PyValue
  float_value : PyFloat → PyValue

-- How often `n` is halved before it fits the 53 bits of a double's mantissa.
shift_for : ℕ → ℕ → ℕ
shift_for zero n = 0
shift_for (suc fuel) n = let rest = shift_for fuel (n / 2) in if ltb n (2 ^ 53) then 0 else suc rest

-- `n` over `unit`, rounded half to even, times `unit`.
round_to_unit : ℕ → ℕ → ℕ
round_to_unit unit n =
    (if ltb unit (2 * (n % unit))
      then n / unit + 1
      else if 2 * (n % unit) == unit
      then n / unit + n / unit % 2
      else n / unit)
    * unit

-- The double nearest to a whole number; `none` is `OverflowError`. A number below 2 ^ 1024 is
-- halved 971 times at most, and any other one rounds to 2 ^ 1024 or more.
unfoldable pub double_of_nat : ℕ → Option ℕ
unfolding shift_for round_to_unit
double_of_nat n =
    let v = round_to_unit (2 ^ shift_for 972 n) n in if leb (2 ^ 1024) v then none else some v

shift_for-small : (fuel n : ℕ) → n < 2 ^ 53 → shift_for fuel n ≡ 0
unfolding shift_for
shift_for-small zero n h = refl
shift_for-small (suc fuel) n h = ground arith

-- Whole numbers of up to 53 bits are exact.
pub double_of_nat_exact : (n : ℕ) → n < 2 ^ 53 → double_of_nat n ≡ some n
unfolding double_of_nat
double_of_nat_exact n h = rw (shift_for-small 972 n h) (ground arith)

abbrev signed_double : Bool → Option ℕ → Option PyFloat
signed_double negative none = none
signed_double negative (some m) = some (finite negative m false)

-- `float(n)` of an int.
unfoldable pub float_of_int : ℤ → Option PyFloat
float_of_int (pos n) = signed_double false (double_of_nat n)
float_of_int (negsuc n) = signed_double true (double_of_nat (suc n))

-- `float(value)` behind `not isinstance(value, bool) and isinstance(value, (int, float))`; `none`
-- where the code refuses the type or catches the overflow.
unfoldable pub number_of : PyValue → Option PyFloat
unfolding float_of_int
number_of none_value = none
number_of (bool_value _) = none
number_of (text_value _) = none
number_of (int_value n) = float_of_int n
number_of (float_value x) = some x

-- `math.isfinite(x) and x > 0`
unfoldable pub is_positive_finite : PyFloat → Bool
is_positive_finite nan = false
is_positive_finite (infinite _) = false
is_positive_finite (finite negative whole fraction) = not negative && (ltb 0 whole || fraction)

-- `int(x)` where `x` is finite, not negative and whole; `none` otherwise.
unfoldable pub whole_count : PyFloat → Option ℕ
whole_count nan = none
whole_count (infinite _) = none
whole_count (finite negative whole fraction) =
    if negative && (ltb 0 whole || fraction) then none else if fraction then none else some whole
