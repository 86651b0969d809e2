-- ===== src/Text.antt =====
-- Text that the code walks or folds: the list of its code points. `upper` and `lower` fold ASCII
-- letters; ticker symbols, sides and statuses are ASCII.
use Prim.Native.Char.{code}
use claude_code_and_vive_cod.Prelude.{
  ℕ, ◌+◌, ◌-◌, ◌≡◌, ◌↔◌, Bool, true, false, ◌&&◌, ◌||◌, List, [], ◌∷◌, map, String, arith, leb,
  ◌==◌, if◌then◌else◌,
}

abbrev pub Text : Type 0
Text = List ℕ

abbrev pub codes : String → Text
codes String.[] = []
codes (String.◌∷◌ c s) = code c ∷ codes s

abbrev pub upper_code : ℕ → ℕ
upper_code c = if leb b'a' c && leb c b'z' then c - 32 else c

abbrev pub lower_code : ℕ → ℕ
lower_code c = if leb b'A' c && leb c b'Z' then c + 32 else c

abbrev pub upper : Text → Text
upper = map upper_code

abbrev pub lower : Text → Text
lower = map lower_code

unfoldable pub text_eq : Text → Text → Bool
text_eq [] [] = true
text_eq [] (y ∷ ys) = false
text_eq (x ∷ xs) [] = false
text_eq (x ∷ xs) (y ∷ ys) = x == y && text_eq xs ys

pub text_eq_iff : (xs ys : Text) → (text_eq xs ys ≡ true) ↔ (xs ≡ ys)
unfolding text_eq
text_eq_iff [] [] = ground arith
text_eq_iff [] (y ∷ ys) = ground arith
text_eq_iff (x ∷ xs) [] = ground arith
text_eq_iff (x ∷ xs) (y ∷ ys) = ground (arith, text_eq_iff xs ys)

unfoldable pub text_mem : Text → List Text → Bool
unfolding text_eq
text_mem x [] = false
text_mem x (y ∷ ys) = text_eq x y || text_mem x ys
