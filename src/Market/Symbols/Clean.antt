-- ===== src/Market/Symbols/Clean.antt =====
-- Cleaning a symbol, and cleaning it again.
use claude_code_and_vive_cod.Prelude.{
  ℕ, ◌≡◌, refl, ap, ◌∙◌, inl, inr, false, Option, some, none, [], ◌∷◌, arith, Bool-cases,
}
use claude_code_and_vive_cod.Text.{Text, upper, upper_code}
use claude_code_and_vive_cod.Market.Symbols.{
  is_space, strip_left, strip_right, keep_before, strip, clean,
}

upper_code_idem : (c : ℕ) → upper_code (upper_code c) ≡ upper_code c
upper_code_idem c = ground arith

space-upper_code : (c : ℕ) → is_space (upper_code c) ≡ is_space c
space-upper_code c = ground arith

upper_idem : (t : Text) → upper (upper t) ≡ upper t
upper_idem [] = refl
upper_idem (c ∷ cs) = rw (upper_code_idem c) (ap (λ rest. upper_code c ∷ rest) (upper_idem cs))

strip_left-upper : (t : Text) → strip_left (upper t) ≡ upper (strip_left t)
unfolding strip_left
strip_left-upper [] = refl
strip_left-upper (c ∷ cs) = elim (Bool-cases (is_space c)) [
  | inl s ↦ rw (space-upper_code c, s) (strip_left-upper cs)
  | inr k ↦ rw (space-upper_code c, k) refl
]

keep_before-upper :
    (c : ℕ) (t : Text) → keep_before (upper_code c) (upper t) ≡ upper (keep_before c t)
keep_before-upper c [] = elim (Bool-cases (is_space c)) [
  | inl s ↦ rw (space-upper_code c, s) refl
  | inr k ↦ rw (space-upper_code c, k) refl
]
keep_before-upper c (d ∷ ds) = refl

strip_right-upper : (t : Text) → strip_right (upper t) ≡ upper (strip_right t)
unfolding strip_right
strip_right-upper [] = refl
strip_right-upper (c ∷ cs) = rw (strip_right-upper cs) (keep_before-upper c (strip_right cs))

strip-upper : (t : Text) → strip (upper t) ≡ upper (strip t)
unfolding strip
strip-upper t = rw (strip_left-upper t) (strip_right-upper (strip_left t))

strip_right_idem : (t : Text) → strip_right (strip_right t) ≡ strip_right t
unfolding strip_right
strip_right_idem [] = refl
strip_right_idem (c ∷ cs) = kept (strip_right cs) (strip_right_idem cs)
  where
    kept : (t : Text) → strip_right t ≡ t → strip_right (keep_before c t) ≡ keep_before c t
    kept [] h = ground arith
    kept (d ∷ ds) h = rw h refl

-- The text starts with no space.
abbrev StartsSolid : Text → Type 0
StartsSolid [] = Unit
StartsSolid (c ∷ cs) = is_space c ≡ false

strip_left-StartsSolid : (t : Text) → StartsSolid (strip_left t)
unfolding strip_left
strip_left-StartsSolid [] = tt
strip_left-StartsSolid (c ∷ cs) = elim (Bool-cases (is_space c)) [
  | inl s ↦ rw s (strip_left-StartsSolid cs)
  | inr k ↦ rw k k
]

solid-strip_left : (t : Text) → StartsSolid t → strip_left t ≡ t
unfolding strip_left
solid-strip_left [] h = refl
solid-strip_left (c ∷ cs) h = rw h refl

solid-strip_right : (t : Text) → StartsSolid t → StartsSolid (strip_right t)
unfolding strip_right
solid-strip_right [] h = tt
solid-strip_right (c ∷ cs) h = kept (strip_right cs)
  where
    kept : (t : Text) → StartsSolid (keep_before c t)
    kept [] = rw h h
    kept (d ∷ ds) = h

pub strip_idem : (t : Text) → strip (strip t) ≡ strip t
unfolding strip
strip_idem t =
    ap strip_right (
      solid-strip_left (strip_right (strip_left t))
        (solid-strip_right (strip_left t) (strip_left-StartsSolid t)))
    ∙ strip_right_idem (strip_left t)

pub clean_idem : (raw : Option Text) → clean (some (clean raw)) ≡ clean raw
unfolding clean strip strip_left strip_right
clean_idem none = refl
clean_idem (some t) =
    ap upper (strip-upper (strip t)) ∙ (upper_idem (strip (strip t)) ∙ ap upper (strip_idem t))
