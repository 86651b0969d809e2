-- ===== src/Risk/HaltPolicy/Exits.antt =====
-- What a proven exit guarantees.
use claude_code_and_vive_cod.Prelude.{
  ◌≡◌, refl, false, Option, none, some, List, String, pos, arith,
}
use claude_code_and_vive_cod.Values.{PyFloat, PyValue, int_value, number_of}
use claude_code_and_vive_cod.Risk.Sellable.{
  BrokerPosition, pass, as_count, sellable_from_position, validate_sell_qty,
}
use claude_code_and_vive_cod.Risk.Sellable.Bounds.{
  IsCovered, as_count-int, validate_sell_qty-IsCovered,
}
use claude_code_and_vive_cod.Risk.HaltPolicy.{
  find_position, prove_held, prove_lookup, prove_number, prove_exit,
}

-- The lookup answered, and the first position of the symbol covers the quantity.
pub record IsProven (get_positions : Option (List BrokerPosition)) (symbol : String) (qty : PyValue)
    : Type 0 where
  pub positions : List BrokerPosition
  pub held : BrokerPosition
  pub answered : get_positions ≡ some positions
  pub found : find_position symbol positions ≡ some held
  pub covered :
      IsCovered false (as_count held.qty) (as_count held.sellable_qty) (some 0) (as_count qty)

zero_count : as_count (int_value (pos 0)) ≡ some 0
zero_count = as_count-int 0 (omega arith)

passed-IsCovered :
    (qty : PyValue) (p : BrokerPosition)
    → validate_sell_qty qty (sellable_from_position p (int_value (pos 0)) false) ≡ pass
    → IsCovered false (as_count p.qty) (as_count p.sellable_qty) (some 0) (as_count qty)
unfolding sellable_from_position
passed-IsCovered qty p h =
    rw zero_count at
      (validate_sell_qty-IsCovered qty p.qty p.sellable_qty (int_value (pos 0)) false h)

held-IsProven :
    (get_positions : Option (List BrokerPosition)) (positions : List BrokerPosition)
    (symbol : String) (qty : PyValue)
    → get_positions ≡ some positions
    → (o : Option BrokerPosition) → find_position symbol positions ≡ o
    → prove_held qty o ≡ pass
    → IsProven get_positions symbol qty
unfolding prove_held
held-IsProven g positions symbol qty a none f h = cc
held-IsProven g positions symbol qty a (some p) f h = record {
  positions = positions;
  held = p;
  answered = a;
  found = f;
  covered = passed-IsCovered qty p (ground arith);
}

lookup-IsProven :
    (get_positions : Option (List BrokerPosition)) (symbol : String) (qty : PyValue)
    → prove_lookup get_positions symbol qty ≡ pass
    → IsProven get_positions symbol qty
unfolding prove_lookup
lookup-IsProven none symbol qty h = cc
lookup-IsProven (some ps) symbol qty h =
    held-IsProven (some ps) ps symbol qty refl (find_position symbol ps) refl h

number-lookup :
    (get_positions : Option (List BrokerPosition)) (symbol : String) (qty : PyValue)
    (x : Option PyFloat)
    → prove_number get_positions symbol qty x ≡ pass
    → prove_lookup get_positions symbol qty ≡ pass
unfolding prove_number
number-lookup g symbol qty none h = cc
number-lookup g symbol qty (some x) h = ground arith

-- An exit is proven only by a lookup that answered and whose first position of the symbol has a
-- readable held and sellable quantity, with the requested quantity positive and within both.
pub prove_exit-IsProven :
    (get_positions : Option (List BrokerPosition)) (symbol : String) (qty : PyValue)
    → prove_exit get_positions symbol qty ≡ pass
    → IsProven get_positions symbol qty
unfolding prove_exit
prove_exit-IsProven g symbol qty h =
    lookup-IsProven g symbol qty (number-lookup g symbol qty (number_of qty) h)
