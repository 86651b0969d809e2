-- ===== src/Floats/Sample.antt =====
-- A small instance of the operations, whole numbers, for the tests.
use claude_code_and_vive_cod.Prelude.{ℕ, ◌+◌, ◌*◌, ◌/◌, ℤ, pos, negsuc, leb}
use claude_code_and_vive_cod.Values.{PyValue, int_value}
use claude_code_and_vive_cod.Floats.{FloatOps}

abbrev whole_part : ℤ → ℕ
whole_part (pos n) = n
whole_part (negsuc _) = 0

abbrev whole_value : PyValue → ℕ
whole_value (int_value n) = whole_part n
whole_value _ = 0

abbrev pub whole_floats : FloatOps ℕ
whole_floats = record {
  zero_float = 0;
  of_int = whole_part;
  of_value = whole_value;
  add = λ a b. a + b;
  mul = λ a b. a * b;
  div = λ a b. a / b;
  neg = λ a. 0;
  less_eq = λ a b. leb a b;
}
