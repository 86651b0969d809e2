-- ===== src/Data/CorporateActions/Labels.antt =====
-- When `classify_quantity_jump` of backend/data/corporate_actions.py confirms an action.
use claude_code_and_vive_cod.Prelude.{
  ◌≡◌, refl, ap, inl, inr, Bool, true, false, Option, none, some, List, [], ◌∷◌, String, ℕ,
  Bool-cases,
}
use mathlib.Core.Path.{subst}
use claude_code_and_vive_cod.Data.CorporateActions.{
  ActionType, split, reverse_split, Numbers, is_confirmed,
}
use claude_code_and_vive_cod.Data.CorporateActions.Detector.{
  near, match_quantity, quantity_match, is_preserved, of_quantity_match, classify_quantity_jump,
}

-- What stands behind a type and a ratio: a ratio of the table, or the inverse of one.
pub data Explains {F : Type 0} (n : Numbers F) (x : F) : List F → ActionType × F → Type 0 where
  by_split : {r : F} {rs : List F} → near n x r ≡ true → Explains n x (r ∷ rs) (split, r)
  by_reverse :
      {r : F} {rs : List F}
      → near n x (n.ops.div n.one r) ≡ true
      → Explains n x (r ∷ rs) (reverse_split, n.ops.div n.one r)
  later :
      {r : F} {rs : List F} {found : ActionType × F}
      → Explains n x rs found
      → Explains n x (r ∷ rs) found

-- The numbers of a confirmed label.
pub data Confirmed {F : Type 0} (n : Numbers F) (db_qty db_avg broker_qty broker_avg : F)
    : ActionType → Option F → Type 0 where
  confirmed_by :
      {ty : ActionType} {r : F}
      → n.is_positive db_qty ≡ true
      → n.is_positive broker_qty ≡ true
      → is_preserved n db_qty db_avg broker_qty broker_avg ≡ true
      → Explains n (n.ops.div broker_qty db_qty) n.known_ratios (ty, r)
      → Confirmed n db_qty db_avg broker_qty broker_avg ty (some r)

abbrev get_or : {A : Type 0} → A → Option A → A
get_or a none = a
get_or a (some b) = b

some_injective : {A : Type 0} {x y : A} → some x ≡ some y → x ≡ y
some_injective {x = x} e = ap (get_or x) e

absurd_none : {A B : Type 0} {x : A} → none ≡ some x → B
absurd_none e = cc

module _ {F : Type 0} (n : Numbers F) where
  match_quantity-explained :
      (x : F) (table : List F) (found : ActionType × F)
      → match_quantity n x table ≡ some found
      → Explains n x table found
  unfolding match_quantity
  match_quantity-explained x [] found h = cc
  match_quantity-explained x (r ∷ rs) found h = elim (Bool-cases (near n x r)) [
    | inl y ↦ subst (Explains n x (r ∷ rs)) (some_injective (rw y at h)) (by_split y)
    | inr far ↦ elim (Bool-cases (near n x (n.ops.div n.one r))) [
      | inl y ↦ subst (Explains n x (r ∷ rs)) (some_injective (rw (far, y) at h)) (by_reverse y)
      | inr farther ↦ later (match_quantity-explained x rs found (rw (far, farther) at h))
    ]
  ]

  quantity_match-explained :
      (db_qty broker_qty : F) (found : ActionType × F)
      → quantity_match n db_qty broker_qty ≡ some found
      → (n.is_positive db_qty ≡ true)
        × ((n.is_positive broker_qty ≡ true)
            × Explains n (n.ops.div broker_qty db_qty) n.known_ratios found)
  unfolding quantity_match
  quantity_match-explained db_qty broker_qty found h = elim (Bool-cases (n.is_positive db_qty)) [
    | inl y ↦ elim (Bool-cases (n.is_positive broker_qty)) [
      | inl z ↦ (
        y,
        (
          z,
          match_quantity-explained (n.ops.div broker_qty db_qty) n.known_ratios found
              (rw (y, z) at h),
        ),
      )
      | inr z ↦ absurd_none (rw (y, z) at h)
    ]
    | inr z ↦ absurd_none (rw z at h)
  ]

  of_quantity_match-Confirmed :
      (symbol : String) (db_qty db_avg broker_qty broker_avg : F) (date : ℕ) (detail : String)
      (m : Option (ActionType × F)) (b : Bool)
      → quantity_match n db_qty broker_qty ≡ m
      → is_preserved n db_qty db_avg broker_qty broker_avg ≡ b
      → (let a = of_quantity_match n b symbol date detail m in
          is_confirmed a.status ≡ true
          → Confirmed n db_qty db_avg broker_qty broker_avg a.action_type a.ratio)
  of_quantity_match-Confirmed symbol db_qty db_avg broker_qty broker_avg date detail none b e p h =
      cc
  of_quantity_match-Confirmed symbol db_qty db_avg broker_qty broker_avg date detail (some found)
        true e p h =
      let (y, (z, why)) = quantity_match-explained db_qty broker_qty found e in
      confirmed_by y z p why
  of_quantity_match-Confirmed symbol db_qty db_avg broker_qty broker_avg date detail (some found)
        false e p h =
      cc

  -- A jump is labelled as confirmed only if both quantities are positive, the value is preserved,
  -- and the label's type and ratio are those of a known ratio that the ratio of the quantities is
  -- near to: a split by that ratio, or a reverse split by its inverse.
  pub classify_quantity_jump-Confirmed :
      (symbol : String) (db_qty db_avg broker_qty broker_avg : F) (date : ℕ) (detail : String)
      → is_confirmed
          (classify_quantity_jump n symbol db_qty db_avg broker_qty broker_avg date detail).status
        ≡ true
      → Confirmed n db_qty db_avg broker_qty broker_avg
          (classify_quantity_jump n symbol db_qty db_avg broker_qty broker_avg date
            detail).action_type
          (classify_quantity_jump n symbol db_qty db_avg broker_qty broker_avg date detail).ratio
  unfolding classify_quantity_jump
  classify_quantity_jump-Confirmed symbol db_qty db_avg broker_qty broker_avg date detail h =
      of_quantity_match-Confirmed symbol db_qty db_avg broker_qty broker_avg date detail
        (quantity_match n db_qty broker_qty) (is_preserved n db_qty db_avg broker_qty broker_avg)
        refl refl h
