-- ===== src/Data/CorporateActions/Gate.antt =====
-- What keeps a symbol blocked: the registry within a process, and the table across a restart.
use claude_code_and_vive_cod.Prelude.{
  ◌≡◌, refl, ◌∙◌, inl, inr, Bool, true, false, ◌||◌, Option, none, some, List, [], ◌∷◌, ◌++◌,
  String, str_eq, arith, eq_refl, Bool-cases, Option-cases, is_some, if◌then◌else◌,
}
use mathlib.Core.Path.{subst}
use claude_code_and_vive_cod.Dict.{lookup, lookup-insert, lookup-insert_self}
use claude_code_and_vive_cod.Data.CorporateActions.{
  CorporateAction, Numbers, is_valid, classified, action_eq,
}
use claude_code_and_vive_cod.Data.CorporateActions.Service.{
  Service, pending_for, add_pending, note_block, first_blocking, is_blocking, assert_tradeable,
  restore_pending, register_action, remove_first, remove_pending,
}
use claude_code_and_vive_cod.Data.CorporateActions.Runtime.{
  CaRow, Runtime, RowStatus, blocking, applied_row, same_key, upsert, keep_blocking,
  blocking_actions, restore, is_blocked, record_action,
}

abbrev pub is_nonempty {ℓ} : {A : Type ℓ} → List A → Bool
is_nonempty [] = false
is_nonempty (x ∷ xs) = true

is_nonempty-append {ℓ} : {A : Type ℓ} (xs : List A) (x : A) → is_nonempty (xs ++ (x ∷ [])) ≡ true
is_nonempty-append [] x = refl
is_nonempty-append (y ∷ ys) x = refl

module _ {F : Type 0} where
  first_blocking-strict :
      (actions : List (CorporateAction F))
      → is_some (first_blocking true actions) ≡ is_nonempty actions
  unfolding first_blocking is_blocking
  first_blocking-strict [] = refl
  first_blocking-strict (a ∷ more) = ground arith

  note_block-error :
      (o : Option (CorporateAction F)) (s : Service F) → is_some (note_block o s).0 ≡ is_some o
  note_block-error none s = refl
  note_block-error (some a) s = refl

  -- A strict gate blocks a symbol exactly if something of it is pending.
  pub is_blocked-pending :
      (symbol : String) (t : Runtime F)
      → (is_blocked symbol t).0 ≡ is_nonempty (pending_for symbol t.service)
  unfolding is_blocked assert_tradeable
  is_blocked-pending symbol t =
      note_block-error (first_blocking true (pending_for symbol t.service)) t.service
      ∙ first_blocking-strict (pending_for symbol t.service)

  pub pending-add :
      (a : CorporateAction F) (symbol : String) (s : Service F)
      → pending_for symbol (add_pending a s) ≡ (
          if str_eq a.symbol symbol
          then pending_for a.symbol s ++ (a ∷ [])
          else pending_for symbol s)
  unfolding pending_for
  pending-add a symbol s = elim (Bool-cases (str_eq a.symbol symbol)) [
    | inl same ↦
        rw (lookup-insert a.symbol symbol (pending_for a.symbol s ++ (a ∷ [])) s.pending, same) refl
    | inr other ↦
        rw (lookup-insert a.symbol symbol (pending_for a.symbol s ++ (a ∷ [])) s.pending, other)
          refl
  ]

  -- Whether an action of the symbol is among them.
  unfoldable pub mentions : String → List (CorporateAction F) → Bool
  mentions symbol [] = false
  mentions symbol (a ∷ more) = str_eq a.symbol symbol || mentions symbol more

  restore_pending-nonempty :
      (symbol : String) (actions : List (CorporateAction F)) (s : Service F)
      → (mentions symbol actions || is_nonempty (pending_for symbol s)) ≡ true
      → is_nonempty (pending_for symbol (restore_pending actions s)) ≡ true
  unfolding restore_pending mentions
  restore_pending-nonempty symbol [] s h = h
  restore_pending-nonempty symbol (a ∷ more) s h = elim (Bool-cases (str_eq a.symbol symbol)) [
    | inl same ↦ restore_pending-nonempty symbol more (add_pending a s) (
        rw (pending-add a symbol s, same, is_nonempty-append (pending_for a.symbol s) a)
          (ground arith))
    | inr other ↦
        restore_pending-nonempty symbol more (add_pending a s)
          (rw (pending-add a symbol s, other) (rw other at h))
  ]

  same_key-symbol :
      (a : CorporateAction F) (r : CaRow F)
      → same_key a r ≡ true
      → str_eq r.action.symbol a.symbol ≡ true
  unfolding same_key
  same_key-symbol a r h = ground arith

  keep_blocking-mentions :
      (symbol : String) (st : RowStatus) (a : CorporateAction F) (rest : List (CorporateAction F))
      → mentions symbol rest ≡ true
      → mentions symbol (keep_blocking st a rest) ≡ true
  unfolding mentions
  keep_blocking-mentions symbol (blocking st) a rest h = ground arith
  keep_blocking-mentions symbol applied_row a rest h = h

  upsert-mentions :
      (a : CorporateAction F) (rows : List (CaRow F))
      → mentions a.symbol (blocking_actions (upsert a rows)) ≡ true
  unfolding upsert blocking_actions mentions
  upsert-mentions a [] = rw (eq_refl a.symbol) refl
  upsert-mentions a (r ∷ rs) = elim (Bool-cases (same_key a r)) [
    | inl same ↦ rw (same, same_key-symbol a r same) refl
    | inr other ↦ rw other (
        keep_blocking-mentions a.symbol r.status r.action (blocking_actions (upsert a rs))
          (upsert-mentions a rs))
  ]

  added-nonempty :
      (a : CorporateAction F) (s : Service F)
      → is_nonempty (pending_for a.symbol (add_pending a s)) ≡ true
  added-nonempty a s =
      rw (pending-add a a.symbol s, eq_refl a.symbol)
        (is_nonempty-append (pending_for a.symbol s) a)

  -- A process that starts with an empty registry on the rows of another.
  abbrev pub restarted : Runtime F → Runtime F
  restarted t = record t { service = record { pending = []; history = []; audits = [] } }

  restore-mentioned :
      (symbol : String) (t : Runtime F)
      → mentions symbol (blocking_actions t.rows) ≡ true
      → (t' : Runtime F) × (restore true t ≡ some t') × ((is_blocked symbol t').0 ≡ true)
  unfolding restore
  restore-mentioned symbol t h =
      let t' : Runtime F = record t {
        service = restore_pending (blocking_actions t.rows) t.service;
      } in
      (
        t',
        refl,
        is_blocked-pending symbol t'
            ∙ restore_pending-nonempty symbol (blocking_actions t.rows) t.service (rw h refl),
      )

module _ {F : Type 0} (n : Numbers F) where
  classified-symbol : (a : CorporateAction F) → (classified n a).symbol ≡ a.symbol
  unfolding classified
  classified-symbol a = elim (Bool-cases (is_valid n a)) [ inl y ↦ rw y refl | inr x ↦ rw x refl ]

  record_action-pending :
      (db_up : Bool) (a : CorporateAction F) (t : Runtime F)
      → is_nonempty (pending_for (classified n a).symbol (record_action n db_up a t).service) ≡ true
  unfolding record_action register_action pending_for
  record_action-pending true a t = added-nonempty (classified n a) t.service
  record_action-pending false a t = added-nonempty (classified n a) t.service

  -- An action that was recorded, whatever its type and status, whatever was there before, and
  -- whether or not the table took its row, blocks its symbol; recorded with the table up, it does
  -- so as well in a process that starts with an empty registry, once that has read the table.
  pub record_action-IsBlocked :
      (db_up : Bool) (a : CorporateAction F) (t : Runtime F)
      → ((is_blocked a.symbol (record_action n db_up a t)).0 ≡ true)
        × ((t' : Runtime F) × (restore true (restarted (record_action n true a t)) ≡ some t')
            × ((is_blocked a.symbol t').0 ≡ true))
  unfolding record_action register_action pending_for
  record_action-IsBlocked db_up a t =
      let c = classified n a in
      let same = classified-symbol a in
      let here = record_action n db_up a t in
      let after = record_action n true a t in
      (
        subst (λ (sym : String). (is_blocked sym here).0 ≡ true) same
            (is_blocked-pending c.symbol here ∙ record_action-pending db_up a t),
        subst
            (λ (sym : String).
              (t' : Runtime F) × (restore true (restarted after) ≡ some t')
              × ((is_blocked sym t').0 ≡ true))
            same (restore-mentioned c.symbol (restarted after) (upsert-mentions c t.rows)),
      )

  -- A list of two or more.
  abbrev pub several : List (CorporateAction F) → Bool
  several [] = false
  several (a ∷ []) = false
  several (a ∷ b ∷ more) = true

  pub remove_first-several :
      (a : CorporateAction F) (xs : List (CorporateAction F))
      → several xs ≡ true
      → is_nonempty (remove_first n a xs) ≡ true
  unfolding remove_first
  remove_first-several a [] h = cc
  remove_first-several a (b ∷ []) h = cc
  remove_first-several a (b ∷ d ∷ more) h = elim (Bool-cases (action_eq n b a)) [
    | inl y ↦ rw y refl
    | inr x ↦ rw x refl
  ]

  pub several-append :
      (xs : List (CorporateAction F)) (a b : CorporateAction F)
      → several ((xs ++ (a ∷ [])) ++ (b ∷ [])) ≡ true
  several-append [] a b = refl
  several-append (x ∷ []) a b = refl
  several-append (x ∷ y ∷ more) a b = refl

  pub remove_pending-pending :
      (a : CorporateAction F) (s : Service F)
      → pending_for a.symbol (remove_pending n a s) ≡ remove_first n a (pending_for a.symbol s)
  unfolding remove_pending pending_for remove_first
  remove_pending-pending a s = elim (Option-cases (lookup a.symbol s.pending)) [
    | inl gone ↦ rw (gone, gone) refl
    | inr (xs, there) ↦ rw (there, lookup-insert_self a.symbol (remove_first n a xs) s.pending) refl
  ]

  pub valid-classified : (a : CorporateAction F) → is_valid n a ≡ true → classified n a ≡ a
  unfolding classified
  valid-classified a h = rw h refl
