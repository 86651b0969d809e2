-- ===== src/KisAdapter/Pagination.antt =====
-- kis_adapter/pagination.py. The client is a parameter: what its `n`-th call answers to the
-- continuation keys that it is given, `none` if it raises. Whitespace is that of ASCII.
pub mod Complete
pub mod Search
use claude_code_and_vive_cod.Prelude.{
  ℕ, zero, suc, ◌+◌, ◌-◌, Bool, true, false, ◌&&◌, ◌||◌, Option, none, some, List, [], ◌∷◌, ◌++◌,
  String, str_eq, leb, ◌==◌, if◌then◌else◌,
}
use claude_code_and_vive_cod.Text.{Text}

-- What a body has under a name: nothing, `None` or the empty text, one row as a dict, or a list.
pub data Field (R : Type 0) : Type 0 where
  absent empty : Field R
  one : R → Field R
  many : List R → Field R

-- A response: its `tr_cont` header and its body. A continuation key that is missing is empty.
pub record Page (R : Type 0) : Type 0 where
  pub cont : String
  pub fk : Text
  pub nk : Text
  pub field : String → Field R

-- `cont in MORE`
unfoldable pub has_more : {R : Type 0} → Page R → Bool
has_more p = str_eq p.cont "F" || str_eq p.cont "M"

-- `not text.strip()`
abbrev blank : Text → Bool
blank [] = true
blank (c ∷ cs) = (c == 32 || (leb 9 c && leb c 13) || (leb 28 c && leb c 31)) && blank cs

unfoldable pub no_key : {R : Type 0} → Page R → Bool
no_key p = blank p.fk && blank p.nk

-- `_rows`
unfoldable pub rows_of : {R : Type 0} → Field R → List R
rows_of absent = []
rows_of empty = []
rows_of (one r) = r ∷ []
rows_of (many rs) = rs

abbrev pub is_absent : {R : Type 0} → Field R → Bool
is_absent absent = true
is_absent empty = false
is_absent (one r) = false
is_absent (many rs) = false

abbrev is_given : {R : Type 0} → Field R → Bool
is_given absent = false
is_given empty = false
is_given (one r) = true
is_given (many rs) = true

pub data PageError : Type 0 where
  client_raised no_list key_missing too_many_pages list_missing : PageError

-- What the generator yields, the rows of each page, and how it ends.
pub record Yielded (R : Type 0) : Type 0 where
  pub pages : List (List R)
  pub failure : Option PageError

abbrev pub fails : {R : Type 0} → PageError → Yielded R
fails e = record { pages = []; failure = some e }

abbrev pub also : {R : Type 0} → List R → Yielded R → Yielded R
also rows y = record { pages = rows ∷ y.pages; failure = y.failure }

abbrev pub Client : Type 0 → Type 0
Client R = ℕ → Option (Text × Text) → Option (Page R)

-- The first of the names that the body gives rows for.
unfoldable pub choose_key : {R : Type 0} → List String → Page R → Option String
choose_key [] p = none
choose_key (k ∷ ks) p = let rest = choose_key ks p in if is_given (p.field k) then some k else rest

module _ {R : Type 0} (client : Client R) where
  -- The loop after `n` pages; `left` is how many pages it may still ask for.
  unfoldable pub follow : String → ℕ → ℕ → Page R → Yielded R
  follow key zero n page =
      if has_more page
      then if no_key page then fails key_missing else fails too_many_pages
      else record { pages = []; failure = none }
  follow key (suc left) n page =
      let next = client n (some (page.fk, page.nk)) in
      if has_more page
      then if no_key page then fails key_missing else elim next [
        | none ↦ fails client_raised
        | some p ↦
            let rest = follow key left (n + 1) p in
            if is_absent (p.field key)
            then fails list_missing
            else also (rows_of (p.field key)) rest
      ]
      else record { pages = []; failure = none }

  -- From the first page, with the name that was chosen; the result has the name that is used.
  unfoldable pub start_pages : String → ℕ → Page R → Option String → String × Yielded R
  start_pages first max_pages p (some key) =
      (key, also (rows_of (p.field key)) (follow key (max_pages - 1) 1 p))
  start_pages first max_pages p none = (
    first,
    if has_more p
        then fails no_list
        else also (rows_of (p.field first)) (follow first (max_pages - 1) 1 p),
  )

  unfoldable pub iter_found : String → List String → ℕ → Option (Page R) → String × Yielded R
  iter_found first others max_pages none = (first, fails client_raised)
  iter_found first others max_pages (some p) =
      start_pages first max_pages p (choose_key (first ∷ others) p)

  -- The names of the row list are `first` and `others`.
  unfoldable pub iter_pages : String → List String → ℕ → String × Yielded R
  iter_pages first others max_pages = iter_found first others max_pages (client 0 none)

-- What the functions return, or raise.
pub data Fetched (A : Type 0) : Type 0 where
  fetched : A → Fetched A
  raised : PageError → Fetched A

abbrev pub join : {R : Type 0} → List (List R) → List R
join [] = []
join (rs ∷ pages) = rs ++ join pages

-- The rows that `get_all_pages` puts into the first body.
unfoldable pub collect : {R : Type 0} → Yielded R → Fetched (List R)
collect y = elim y.failure [ none ↦ fetched (join y.pages) | some e ↦ raised e ]

abbrev pub first_match : {R : Type 0} → (R → Bool) → List R → Option R
first_match accepts [] = none
first_match accepts (r ∷ rs) = if accepts r then some r else first_match accepts rs

abbrev end_of_search : {R : Type 0} → Option PageError → Fetched (Option R)
end_of_search none = fetched none
end_of_search (some e) = raised e

unfoldable pub found_or : {R : Type 0} → Option R → Fetched (Option R) → Fetched (Option R)
found_or none later = later
found_or (some r) later = fetched (some r)

-- `find_row` stops at the first page that has a match.
unfoldable pub search_pages :
    {R : Type 0} → (R → Bool) → Option PageError → List (List R) → Fetched (Option R)
search_pages accepts failure [] = end_of_search failure
search_pages accepts failure (rs ∷ pages) =
    found_or (first_match accepts rs) (search_pages accepts failure pages)

module _ {R : Type 0} (client : Client R) where
  unfoldable pub get_all_pages : String → List String → ℕ → Fetched (List R)
  get_all_pages first others max_pages = collect (iter_pages client first others max_pages).1

  unfoldable pub find_row : (R → Bool) → String → List String → ℕ → Fetched (Option R)
  find_row accepts first others max_pages =
      let y = (iter_pages client first others max_pages).1 in search_pages accepts y.failure y.pages
