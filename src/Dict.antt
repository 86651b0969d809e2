-- ===== src/Dict.antt =====
-- A Python dict with text keys: an association list in insertion order. Writing to a key that is
-- there keeps its place; a key that is popped and written again goes to the end.
use claude_code_and_vive_cod.Prelude.{
  String, false, ◌≡◌, ◌≢◌, refl, sym, ap, ◌∙◌, inl, inr, Option, none, some, List, [], ◌∷◌, arith,
  str_eq, eq_iff, if◌then◌else◌, Bool-cases,
}

abbrev pub Dict {ℓ} : Type ℓ → Type ℓ
Dict V = List (String × V)

module _ {ℓ} {V : Type ℓ} where
  -- `d.get(k)`
  unfoldable pub lookup : String → Dict V → Option V
  lookup k [] = none
  lookup k ((j, v) ∷ d) = if str_eq j k then some v else lookup k d

  -- `d[k] = v`
  unfoldable pub insert : String → V → Dict V → Dict V
  insert k v [] = (k, v) ∷ []
  insert k v ((j, w) ∷ d) = if str_eq j k then (j, v) ∷ d else (j, w) ∷ insert k v d

  -- `d.pop(k, None)`, `del d[k]`
  unfoldable pub erase : String → Dict V → Dict V
  erase k [] = []
  erase k ((j, w) ∷ d) = let rest = erase k d in if str_eq j k then rest else (j, w) ∷ rest

  -- `list(d.values())`
  unfoldable pub values : Dict V → List V
  values [] = []
  values ((j, v) ∷ d) = v ∷ values d

  pub lookup-insert :
      (k j : String) (v : V) (d : Dict V)
      → lookup j (insert k v d) ≡ (if str_eq k j then some v else lookup j d)
  unfolding lookup insert
  lookup-insert k j v [] = refl
  lookup-insert k j v ((i, w) ∷ d) =
      ground (arith, eq_iff k j, eq_iff i k, eq_iff i j, lookup-insert k j v d)

  pub lookup-erase :
      (k j : String) (d : Dict V) → lookup j (erase k d) ≡ (if str_eq k j then none else lookup j d)
  unfolding lookup erase
  lookup-erase k j [] = ground arith
  lookup-erase k j ((i, w) ∷ d) =
      ground (arith, eq_iff k j, eq_iff i k, eq_iff i j, lookup-erase k j d)

module _ {ℓ} {V : Type ℓ} where
  pub lookup-insert_self : (k : String) (v : V) (d : Dict V) → lookup k (insert k v d) ≡ some v
  lookup-insert_self k v d = ground (arith, lookup-insert k k v d, eq_iff k k)

  pub lookup-insert_ne :
      (k j : String) (v : V) (d : Dict V) → k ≢ j → lookup j (insert k v d) ≡ lookup j d
  lookup-insert_ne k j v d h = ground (arith, lookup-insert k j v d, eq_iff k j)

  pub lookup-erase_self : (k : String) (d : Dict V) → lookup k (erase k d) ≡ none
  lookup-erase_self k d = ground (arith, lookup-erase k k d, eq_iff k k)

  pub lookup-erase_ne : (k j : String) (d : Dict V) → k ≢ j → lookup j (erase k d) ≡ lookup j d
  lookup-erase_ne k j d h = ground (arith, lookup-erase k j d, eq_iff k j)

-- Every key stands once, as in a Python dict.
abbrev pub IsKeyed {ℓ} : {V : Type ℓ} → Dict V → Type ℓ
IsKeyed [] = Unit {ℓ}
IsKeyed ((k, v) ∷ d) = (lookup k d ≡ none) × IsKeyed d

-- `for k, v in d.items()`
unfoldable pub each {ℓ κ} : {V : Type ℓ} {S : Type κ} → (String → V → S → S) → Dict V → S → S
each f [] s = s
each f ((k, v) ∷ d) s = each f d (f k v s)

-- What one entry does to a view of the state; a missing one does nothing.
abbrev pub at_entry {ℓ κ} : {V : Type ℓ} {A : Type κ} → (V → A → A) → Option V → A → A
at_entry g none a = a
at_entry g (some v) a = g v a

-- A loop that looks at a key's own part of the state acts on it once, by that key's entry.
module _ {ℓ κ μ} {V : Type ℓ} {S : Type κ} {A : Type μ} (f : String → V → S → S) (view : S → A)
    (k : String) (g : V → A → A)
    (apart : (j : String) (v : V) (s : S) → str_eq j k ≡ false → view (f j v s) ≡ view s)
    (acts : (v : V) (s : S) → view (f k v s) ≡ g v (view s)) where
  pub each-absent : (d : Dict V) (s : S) → lookup k d ≡ none → view (each f d s) ≡ view s
  unfolding each lookup
  each-absent [] s h = refl
  each-absent ((j, v) ∷ d) s h = elim (Bool-cases (str_eq j k)) [
    | inl same ↦ cc (rw same at h)
    | inr other ↦ each-absent d (f j v s) (rw other at h) ∙ apart j v s other
  ]

  pub each-view :
      (d : Dict V) → IsKeyed d → (s : S) → view (each f d s) ≡ at_entry g (lookup k d) (view s)
  unfolding each lookup
  each-view [] h s = refl
  each-view ((j, v) ∷ d) h s = elim (Bool-cases (str_eq j k)) [
    | inl same ↦
        let e = (eq_iff j k).0 same in
        rw same (
          each-absent d (f j v s) (ap (λ t. lookup t d) (sym e) ∙ h.0)
          ∙ (ap (λ t. view (f t v s)) e ∙ acts v s))
    | inr other ↦
        rw other (each-view d h.1 (f j v s) ∙ ap (at_entry g (lookup k d)) (apart j v s other))
  ]

module _ {ℓ} {V : Type ℓ} where
  pub insert-IsKeyed : (k : String) (v : V) (d : Dict V) → IsKeyed d → IsKeyed (insert k v d)
  unfolding insert lookup
  insert-IsKeyed k v [] h = (refl, tt)
  insert-IsKeyed k v ((j, w) ∷ d) h = elim (Bool-cases (str_eq j k)) [
    | inl same ↦ rw same h
    | inr other ↦
        rw other
          (ground (arith, lookup-insert k j v d, eq_iff k j, eq_iff j k), insert-IsKeyed k v d h.1)
  ]

-- What every turn keeps, the loop keeps.
pub each-keeps {ℓ κ μ} :
    {V : Type ℓ} {S : Type κ} (P : S → Type μ) (f : String → V → S → S)
    → ((k : String) (v : V) (s : S) → P s → P (f k v s))
    → (d : Dict V) (s : S) → P s
    → P (each f d s)
unfolding each
each-keeps P f keep [] s h = h
each-keeps P f keep ((k, v) ∷ d) s h = each-keeps P f keep d (f k v s) (keep k v s h)
