-- ===== src/Execution/PositionTracker/Holdings.antt =====
-- What fills do to the held quantities.
use claude_code_and_vive_cod.Prelude.{
  ◌≡◌, refl, ap, ◌∙◌, Bool, true, false, Option, none, some, String, str_eq, eq_iff, ℤ, pos, ◌+ℤ◌,
  ◌-ℤ◌, ◌≤ℤ◌, ◌<ℤ◌, max_ℤ, arith, int_laws, +ℤ_parts, -ℤ_parts, if◌then◌else◌, pos_part, neg_part,
  ◌+◌, ◌==◌, inl, inr, Bool-cases, leb_ℤ,
}
use claude_code_and_vive_cod.Dict.{
  lookup, insert, erase, lookup-insert, lookup-erase, lookup-erase_self,
}
use claude_code_and_vive_cod.Floats.{FloatOps}
use claude_code_and_vive_cod.Brokers.Models.{Position}
use claude_code_and_vive_cod.Execution.PositionTracker.{
  Tracker, Fill, on_fill, buy_filled, sell_filled, averaged, bought, unmark_pending,
}

abbrev pub qty_of : {F : Type 0} → Option (Position F) → ℤ
qty_of none = pos 0
qty_of (some p) = p.qty

module _ {F : Type 0} where
  -- How much of a symbol the tracker holds: zero without a position.
  abbrev pub holding : String → Tracker F → ℤ
  holding symbol t = qty_of (lookup symbol t.positions)

  -- Every position is of a positive quantity.
  pub record IsLong (t : Tracker F) : Type 0 where
    pub long :
        (symbol : String) (p : Position F) → lookup symbol t.positions ≡ some p → pos 0 <ℤ p.qty

  long-holding :
      (symbol : String) (t : Tracker F) (o : Option (Position F))
      → lookup symbol t.positions ≡ o
      → IsLong t
      → pos 0 ≤ℤ qty_of o
  long-holding symbol t none e l = omega arith
  long-holding symbol t (some p) e l = omega (arith, l.long symbol p e)

  insert-holding :
      (k j : String) (p : Position F) (t : Tracker F) (n : ℤ)
      → p.qty ≡ n
      → qty_of (lookup j (insert k p t.positions)) ≡ (if str_eq k j then n else holding j t)
  insert-holding k j p t n e = ground (arith, lookup-insert k j p t.positions)

  erase-holding :
      (k j : String) (t : Tracker F) (n : ℤ)
      → pos 0 ≡ n
      → qty_of (lookup j (erase k t.positions)) ≡ (if str_eq k j then n else holding j t)
  erase-holding k j t n e = ground (arith, lookup-erase k j t.positions)

zero_add : (n : ℤ) → n ≡ pos 0 +ℤ n
zero_add n = omega int_laws

sum_positive :
    (a b : ℤ) → pos 0 ≤ℤ a → pos 0 <ℤ b → pos_part (a +ℤ b) + neg_part (a +ℤ b) == 0 ≡ false
sum_positive a b h p = ground (arith, +ℤ_parts a b)

module _ {F : Type 0} ⦃fl : FloatOps F⦄ where
  -- The quantity that a fill leaves of a holding: a buy adds to it, a sell takes from it down to
  -- zero at the least, and any other side leaves it alone.
  abbrev pub holding_after : Fill F → ℤ → ℤ
  holding_after f held =
      if str_eq f.side "buy"
      then held +ℤ f.qty
      else if str_eq f.side "sell"
      then max_ℤ (pos 0) (held -ℤ f.qty)
      else held

  buy_found :
      (f : Fill F) (t : Tracker F) (o : Option (Position F))
      → pos 0 ≤ℤ qty_of o
      → pos 0 <ℤ f.qty
      → ((buy_filled f o t).0 ≡ true)
        × ((j : String)
            → holding j (buy_filled f o t).1
              ≡ (if str_eq f.symbol j then qty_of o +ℤ f.qty else holding j t))
  unfolding buy_filled averaged
  buy_found f t none h p =
      (refl, λ j. insert-holding f.symbol j (bought f) t (pos 0 +ℤ f.qty) (zero_add f.qty))
  buy_found f t (some q) h p =
      rw (sum_positive q.qty f.qty h p)
        (refl, λ j. insert-holding f.symbol j (averaged f q) t (q.qty +ℤ f.qty) refl)

  sell_found :
      (f : Fill F) (t : Tracker F) (o : Option (Position F))
      → lookup f.symbol t.positions ≡ o
      → pos 0 <ℤ f.qty
      → (j : String)
      → holding j (sell_filled f o t)
        ≡ (if str_eq f.symbol j then max_ℤ (pos 0) (qty_of o -ℤ f.qty) else holding j t)
  unfolding sell_filled
  sell_found f t none e p j = elim (Bool-cases (str_eq f.symbol j)) [
    | inl same ↦ ground (arith, eq_iff f.symbol j, -ℤ_parts (pos 0) f.qty)
    | inr other ↦ rw other
  ]
  sell_found f t (some q) e p j = elim (Bool-cases (leb_ℤ (q.qty -ℤ f.qty) (pos 0))) [
    | inl gone ↦
        rw gone (erase-holding f.symbol j t (max_ℤ (pos 0) (q.qty -ℤ f.qty)) (ground arith))
    | inr left ↦
        rw left (insert-holding f.symbol j _ t (max_ℤ (pos 0) (q.qty -ℤ f.qty)) (ground arith))
  ]

module _ {F : Type 0} where
  insert-IsLong :
      (k : String) (p : Position F) (t : Tracker F)
      → pos 0 <ℤ p.qty
      → IsLong t
      → IsLong (record t { positions = insert k p t.positions })
  insert-IsLong k p t h l = record {
    long = λ j q e. ground (arith, lookup-insert k j p t.positions, l.long j q);
  }

  erase-IsLong :
      (k : String) (t : Tracker F)
      → IsLong t
      → IsLong (record t { positions = erase k t.positions })
  erase-IsLong k t l = record {
    long = λ j q e. ground (arith, lookup-erase k j t.positions, l.long j q);
  }

  unmark-IsLong : (k : String) (t : Tracker F) → IsLong t → IsLong (unmark_pending k t)
  unfolding unmark_pending
  unmark-IsLong k t l = record { long = l.long }

  sell-IsLong :
      (f : Fill F) (t : Tracker F) (o : Option (Position F)) → IsLong t → IsLong (sell_filled f o t)
  unfolding sell_filled
  sell-IsLong f t none l = l
  sell-IsLong f t (some q) l = elim (Bool-cases (leb_ℤ (q.qty -ℤ f.qty) (pos 0))) [
    | inl gone ↦ rw gone (erase-IsLong f.symbol t l)
    | inr left ↦ rw left (insert-IsLong f.symbol _ t (ground arith) l)
  ]

module _ {F : Type 0} ⦃fl : FloatOps F⦄ where
  buy-IsLong :
      (f : Fill F) (t : Tracker F) (o : Option (Position F))
      → pos 0 ≤ℤ qty_of o
      → pos 0 <ℤ f.qty
      → IsLong t
      → IsLong (buy_filled f o t).1
  unfolding buy_filled averaged
  buy-IsLong f t none h p l = insert-IsLong f.symbol (bought f) t p l
  buy-IsLong f t (some q) h p l =
      rw (sum_positive q.qty f.qty h p)
        (insert-IsLong f.symbol (averaged f q) t (omega (arith, +ℤ_parts q.qty f.qty)) l)

  -- What `on_fill` does: it returns, changes the holding of the fill's symbol alone, releases the
  -- symbol's lock, and keeps every position positive.
  pub record Applies (f : Fill F) (t : Tracker F) (r : Bool × Tracker F) : Type 0 where
    pub returns : r.0 ≡ true
    pub holds :
        (j : String)
        → holding j r.1
          ≡ (if str_eq f.symbol j then holding_after f (holding f.symbol t) else holding j t)
    pub released : lookup f.symbol r.1.pending_symbols ≡ none
    pub long : IsLong r.1

  other_side :
      (f : Fill F) (t : Tracker F) (j : String)
      → holding j t ≡ (if str_eq f.symbol j then holding f.symbol t else holding j t)
  other_side f t j = ground (arith, eq_iff f.symbol j)

  released_buy :
      (f : Fill F) (o : Option (Position F)) (t : Tracker F)
      → (buy_filled f o t).1.pending_symbols ≡ t.pending_symbols
  unfolding buy_filled
  released_buy f o t = ground arith

  released_sell :
      (f : Fill F) (o : Option (Position F)) (t : Tracker F)
      → (sell_filled f o t).pending_symbols ≡ t.pending_symbols
  unfolding sell_filled
  released_sell f o t = ground arith

  -- A fill of a positive quantity, on a tracker whose positions are all positive, is applied: a
  -- buy adds to the holding of its symbol, a sell takes from it down to zero, no other holding
  -- changes, the symbol's lock is released, and all positions stay positive.
  pub on_fill-Applies :
      (f : Fill F) (t : Tracker F) → IsLong t → pos 0 <ℤ f.qty → Applies f t (on_fill f t)
  unfolding on_fill unmark_pending
  on_fill-Applies f t l p =
      let o = lookup f.symbol t.positions in
      let t' = unmark_pending f.symbol t in
      let l' = unmark-IsLong f.symbol t l in
      let h = long-holding f.symbol t o refl l in
      let gone = lookup-erase_self f.symbol t.pending_symbols in
      elim (Bool-cases (str_eq f.side "buy")) [
        | inl buys ↦ rw buys (record {
          returns = (buy_found f t' o h p).0;
          holds = λ j. rw buys ((buy_found f t' o h p).1 j);
          released = ap (lookup f.symbol) (released_buy f o t') ∙ gone;
          long = buy-IsLong f t' o h p l';
        })
        | inr not_buy ↦ elim (Bool-cases (str_eq f.side "sell")) [
          | inl sells ↦
              rw (not_buy, sells)
                (record {
                  returns = refl;
                  holds = λ j. rw (not_buy, sells) (sell_found f t' o refl p j);
                  released = ap (lookup f.symbol) (released_sell f o t') ∙ gone;
                  long = sell-IsLong f t' o l';
                })
          | inr not_sell ↦
              rw (not_buy, not_sell)
                (record {
                  returns = refl;
                  holds = λ j. rw (not_buy, not_sell) (other_side f t j);
                  released = gone;
                  long = l';
                })
        ]
      ]
