-- ===== src/Risk/Sellable/Bounds.antt =====
-- What a sell that passes validation asks for.
use claude_code_and_vive_cod.Prelude.{
  ℕ, ◌+◌, ◌^◌, ◌≤◌, ◌<◌, ◌≡◌, Bool, true, false, Option, none, some, pos, arith, if◌then◌else◌,
}
use claude_code_and_vive_cod.Values.{PyValue, int_value, double_of_nat_exact}
use claude_code_and_vive_cod.Risk.Sellable.{
  pass, as_count, resolve_sellable, validate_sell_qty, resolve_counts, check_known, check_requested,
  is_unknown, settle,
}

-- A whole number of up to 53 bits is read as itself.
pub as_count-int : (n : ℕ) → n < 2 ^ 53 → as_count (int_value (pos n)) ≡ some n
unfolding as_count
as_count-int n h = rw (double_of_nat_exact n h) (ground arith)

-- All four counts are read, and what is asked for is positive and, with what is pending, within
-- what is held and what the broker will take.
abbrev pub IsCovered : Bool → Option ℕ → Option ℕ → Option ℕ → Option ℕ → Type 0
IsCovered nets (some held) (some orderable) (some pending) (some requested) =
    (0 < requested)
    × (requested + (if nets then 0 else pending) ≤ held)
    × (requested + (if nets then 0 else pending) ≤ orderable)
IsCovered nets _ _ _ _ = ⊥

counts-IsCovered :
    (nets missing : Bool) (held orderable pending requested : Option ℕ)
    → check_known requested (resolve_counts nets missing held orderable pending).qty ≡ pass
    → IsCovered nets held orderable pending requested
unfolding check_known check_requested resolve_counts settle
counts-IsCovered nets missing none orderable pending requested h = cc
counts-IsCovered nets true (some held) orderable pending requested h = cc
counts-IsCovered nets false (some held) none pending requested h = cc
counts-IsCovered nets false (some held) (some o) none requested h = cc
counts-IsCovered nets false (some held) (some o) (some p) none h = cc
counts-IsCovered nets false (some held) (some o) (some p) (some r) h = ground arith

-- A sell that validate_sell_qty passes against the figure of resolve_sellable is covered: all
-- four counts are readable, and the request is positive and, with the pending sells that the
-- broker has not netted, exceeds neither the held nor the orderable quantity.
pub validate_sell_qty-IsCovered :
    (requested held orderable pending : PyValue) (nets : Bool)
    → validate_sell_qty requested (resolve_sellable held orderable pending nets) ≡ pass
    → IsCovered nets (as_count held) (as_count orderable) (as_count pending) (as_count requested)
unfolding validate_sell_qty resolve_sellable
validate_sell_qty-IsCovered requested held orderable pending nets =
    counts-IsCovered nets (is_unknown orderable) (as_count held) (as_count orderable)
      (as_count pending) (as_count requested)

-- A figure is at most what is held and what the broker will take, both of them readable counts.
abbrev pub IsBounded : ℕ → Option ℕ → Option ℕ → Type 0
IsBounded n (some held) (some orderable) = (n ≤ held) × (n ≤ orderable)
IsBounded n _ _ = ⊥

counts-IsBounded :
    (nets missing : Bool) (held orderable pending : Option ℕ) (n : ℕ)
    → (resolve_counts nets missing held orderable pending).qty ≡ some n
    → IsBounded n held orderable
unfolding resolve_counts settle
counts-IsBounded nets missing none orderable pending n h = cc
counts-IsBounded nets true (some held) orderable pending n h = cc
counts-IsBounded nets false (some held) none pending n h = cc
counts-IsBounded nets false (some held) (some o) none n h = cc
counts-IsBounded nets false (some held) (some o) (some p) n h = ground arith

pub resolved_bounds :
    (held orderable pending : PyValue) (nets : Bool) (n : ℕ)
    → (resolve_sellable held orderable pending nets).qty ≡ some n
    → IsBounded n (as_count held) (as_count orderable)
unfolding resolve_sellable
resolved_bounds held orderable pending nets n =
    counts-IsBounded nets (is_unknown orderable) (as_count held) (as_count orderable)
      (as_count pending) n
