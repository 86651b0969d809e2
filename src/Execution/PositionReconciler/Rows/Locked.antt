-- ===== src/Execution/PositionReconciler/Rows/Locked.antt =====
-- A locked write of backend/execution/reconciler.py, at its own symbol and at another.
use claude_code_and_vive_cod.Prelude.{
  ◌≡◌, refl, inl, inr, Bool, true, false, not, Option, none, some, String, str_eq, arith,
  Bool-cases, Option-cases, if◌then◌else◌,
}
use claude_code_and_vive_cod.Dict.{Dict, lookup, insert, at_entry, lookup-insert}
use claude_code_and_vive_cod.Execution.PositionReconciler.{PosRow, Setup, Session}
use claude_code_and_vive_cod.Execution.PositionReconciler.Positions.{
  is_unchanged, lock_unchanged, locked_write,
}
use claude_code_and_vive_cod.Execution.PositionReconciler.Rows.{may_write}

pub put-apart :
    {F : Type 0} (j k : String) (row : PosRow F) (d : Dict (PosRow F))
    → str_eq j k ≡ false
    → lookup k (insert j row d) ≡ lookup k d
put-apart j k row d h = rw (lookup-insert j k row d, h) refl

pub some-if :
    {A : Type 0} (b : Bool) (x y : A) → (if b then some x else some y) ≡ some (if b then x else y)
some-if true x y = refl
some-if false x y = refl

pub if_same : {A : Type 0} (b : Bool) (x : A) → (if b then x else x) ≡ x
if_same true x = refl
if_same false x = refl

pub if-not : {A : Type 0} (b : Bool) (x y : A) → (if b then x else y) ≡ (if not b then y else x)
if-not true x y = refl
if-not false x y = refl

module _ {F C : Type 0} where
  -- A locked write that touches no other symbol touches no other symbol.
  pub locked_write-apart :
      (e : Setup F C) (j k : String) (snapshot : PosRow F)
      (write : PosRow F → Session F C → Session F C)
      → ((row : PosRow F) (s : Session F C) → lookup k (write row s).table ≡ lookup k s.table)
      → (s : Session F C) → lookup k (locked_write e j snapshot write s).table ≡ lookup k s.table
  unfolding locked_write
  locked_write-apart e j k snapshot write h s =
      elim (Option-cases (lock_unchanged e snapshot (lookup j s.table))) [
        | inl n ↦ rw n (ground arith)
        | inr (row, y) ↦ rw y (h row s)
      ]

  pub locked_write-acts :
      (e : Setup F C) (k : String) (snapshot : PosRow F)
      (write : PosRow F → Session F C → Session F C) (new : PosRow F → Option (PosRow F))
      → ((row : PosRow F) (s : Session F C) → lookup k (write row s).table ≡ new row)
      → (s : Session F C) (found : Option (PosRow F)) → lookup k s.table ≡ found
      → lookup k (locked_write e k snapshot write s).table
        ≡ at_entry (λ row rest. if may_write e snapshot row then new row else some row) found none
  unfolding locked_write lock_unchanged may_write
  locked_write-acts e k snapshot write new h s none f = rw f (ground arith)
  locked_write-acts e k snapshot write new h s (some row) f = elim (Bool-cases e.dry_run) [
    | inl dry ↦ rw (f, dry) f
    | inr wet ↦ elim (Bool-cases (is_unchanged e snapshot row)) [
      | inl y ↦ rw (f, y, wet) (h row s)
      | inr n ↦ rw (f, n, wet) f
    ]
  ]

  pub locked_write-none :
      (e : Setup F C) (k : String) (snapshot : PosRow F)
      (write : PosRow F → Session F C → Session F C) (s : Session F C)
      → lookup k s.table ≡ none
      → lookup k (locked_write e k snapshot write s).table ≡ none
  unfolding locked_write lock_unchanged
  locked_write-none e k snapshot write s f = elim (Bool-cases e.dry_run) [
    | inl dry ↦ rw (f, dry) f
    | inr wet ↦ rw (f, wet) f
  ]
