-- ===== src/Floats.antt =====
-- Prices and amounts of money are doubles. The operations that the code makes on them are an
-- interface: nothing is assumed of them but what a theorem names.
pub mod Sample
use claude_code_and_vive_cod.Prelude.{Bool, ℤ}
use claude_code_and_vive_cod.Values.{PyValue}

pub record FloatOps (F : Type 0) : Type 0 where
  pub zero_float : F
  -- `float(n)` of a share count
  pub of_int : ℤ → F
  -- `float(x)` of a value that was found to be a number
  pub of_value : PyValue → F
  pub add : F → F → F
  pub mul : F → F → F
  pub div : F → F → F
  pub neg : F → F
  pub less_eq : F → F → Bool
