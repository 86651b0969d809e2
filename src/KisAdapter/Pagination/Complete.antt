-- ===== src/KisAdapter/Pagination/Complete.antt =====
-- Which pages stand behind the list that `get_all_pages` returns.
use claude_code_and_vive_cod.Prelude.{
  ℕ, zero, suc, ◌+◌, ◌-◌, ◌≤◌, ◌<◌, ◌≡◌, refl, inl, inr, true, false, Option, none, some, List, [],
  ◌∷◌, ◌++◌, String, arith, Bool-cases, Option-cases,
}
use claude_code_and_vive_cod.KisAdapter.Pagination.{
  Page, has_more, no_key, rows_of, is_absent, Yielded, Client, follow, choose_key, start_pages,
  iter_found, iter_pages, fetched, join, collect, get_all_pages, also,
}

abbrev or_first : String → Option String → String
or_first first none = first
or_first first (some key) = key

module _ {R : Type 0} (client : Client R) where
  -- From this page on, the `n`-th call next, the broker's pages up to the last one hold these rows; the
  -- number counts the pages after this one.
  pub data Reads (key : String) : ℕ → ℕ → Page R → List R → Type 0 where
    last : {n : ℕ} {p : Page R} → has_more p ≡ false → Reads key 0 n p []
    more :
        {k n : ℕ} {p q : Page R} {rs : List R}
        → has_more p ≡ true
        → no_key p ≡ false
        → client n (some (p.fk, p.nk)) ≡ some q
        → is_absent (q.field key) ≡ false
        → Reads key k (n + 1) q rs
        → Reads key (suc k) n p (rows_of (q.field key) ++ rs)

  follow-Reads :
      (key : String) (left n : ℕ) (p : Page R)
      → (follow client key left n p).failure ≡ none
      → (k : ℕ) × (k ≤ left) × Reads key k n p (join (follow client key left n p).pages)
  unfolding follow
  follow-Reads key zero n p h = elim (Bool-cases (has_more p)) [
    | inl m ↦ ground arith
    | inr end ↦ rw end (0, omega arith, last end)
  ]
  follow-Reads key (suc left) n p h = elim (Bool-cases (has_more p)) [
    | inr end ↦ rw end (0, omega arith, last end)
    | inl m ↦ elim (Bool-cases (no_key p)) [
      | inl bad ↦ ground arith
      | inr good ↦ elim (Option-cases (client n (some (p.fk, p.nk)))) [
        | inl none_left ↦ ground arith
        | inr (q, e) ↦ elim (Bool-cases (is_absent (q.field key))) [
          | inl gone ↦ ground arith
          | inr there ↦
              let tail : (follow client key left (n + 1) q).failure ≡ none = ground arith in
              let (k, low, r) = follow-Reads key left (n + 1) q tail in
              rw (m, good, e, there) (suc k, omega arith, more m good e there r)
        ]
      ]
    ]
  ]

  collected :
      (y : Yielded R) (rs : List R)
      → collect y ≡ fetched rs
      → (y.failure ≡ none) × (rs ≡ join y.pages)
  unfolding collect
  collected y rs h = ground arith

  also_failure :
      (first : List R) (y : Yielded R) (rs : List R)
      → collect (also first y) ≡ fetched rs
      → (y.failure ≡ none) × (rs ≡ first ++ join y.pages)
  also_failure first y rs h = collected (also first y) rs h

  also-collect :
      (first : List R) (y : Yielded R) (rs : List R)
      → collect y ≡ fetched rs
      → collect (also first y) ≡ fetched (first ++ rs)
  unfolding collect
  also-collect first y rs h = let (f, e) = collected y rs h in rw (f, e) refl

  follow_all :
      (key : String) (left n k : ℕ) (p : Page R) (rs : List R)
      → k ≤ left
      → Reads key k n p rs
      → collect (follow client key left n p) ≡ fetched rs
  unfolding follow collect
  follow_all key zero n k p rs low (last end) = rw end refl
  follow_all key (suc left) n k p rs low (last end) = rw end refl
  follow_all key zero n k p rs low (more m good e there r) = absurd (omega arith)
  follow_all key (suc left) n k p rs low (more {k = k'} {q = q} {rs = rs'} m good e there r) =
      let rest = follow_all key left (n + 1) k' q rs' (omega arith) r in
      rw (m, good, e, there)
        (also-collect (rows_of (q.field key)) (follow client key left (n + 1) q) rs' rest)

  -- The name of the row list: the first that the first page gives rows for, else the first of all.
  abbrev pub key_of : String → List String → Page R → String
  key_of first others p = or_first first (choose_key (first ∷ others) p)

  -- `rows` are the rows of every page: the first call answered, at most `limit` pages follow its
  -- page, and the last one says that no more follow.
  pub record IsWhole (first : String) (others : List String) (limit : ℕ) (rows : List R)
      : Type 0 where
    pub page : Page R
    pub answered : client 0 none ≡ some page
    pub followed : ℕ
    pub within : followed ≤ limit
    pub rest : List R
    pub reads : Reads (key_of first others page) followed 1 page rest
    pub all : rows ≡ rows_of (page.field (key_of first others page)) ++ rest

  keyed-IsWhole :
      (first key : String) (others : List String) (limit : ℕ) (p : Page R) (rs : List R)
      → client 0 none ≡ some p
      → key_of first others p ≡ key
      → collect (also (rows_of (p.field key)) (follow client key (limit - 1) 1 p)) ≡ fetched rs
      → IsWhole first others (limit - 1) rs
  keyed-IsWhole first key others limit p rs e chosen h =
      let (done, all) =
        also_failure (rows_of (p.field key)) (follow client key (limit - 1) 1 p) rs h in
      let (k, low, r) = follow-Reads key (limit - 1) 1 p done in
      record {
        page = p;
        answered = e;
        followed = k;
        within = low;
        rest = join (follow client key (limit - 1) 1 p).pages;
        reads = rw chosen r;
        all = rw chosen all;
      }

  started-IsWhole :
      (first : String) (others : List String) (limit : ℕ) (p : Page R) (rs : List R)
      → client 0 none ≡ some p
      → collect (iter_found client first others limit (some p)).1 ≡ fetched rs
      → IsWhole first others (limit - 1) rs
  unfolding iter_found start_pages collect
  started-IsWhole first others limit p rs e h =
      elim (Option-cases (choose_key (first ∷ others) p)) [
        | inr (key, c) ↦ keyed-IsWhole first key others limit p rs e (rw c refl) (simp c at h)
        | inl missing ↦ elim (Bool-cases (has_more p)) [
          | inl m ↦ ground arith
          | inr end ↦
              keyed-IsWhole first first others limit p rs e (rw missing refl)
                (simp (missing, end) at h)
        ]
      ]

  found-IsWhole :
      (first : String) (others : List String) (limit : ℕ) (rs : List R) (o : Option (Page R))
      → client 0 none ≡ o
      → collect (iter_found client first others limit o).1 ≡ fetched rs
      → IsWhole first others (limit - 1) rs
  unfolding iter_found collect
  found-IsWhole first others limit rs none e h = absurd (cc h)
  found-IsWhole first others limit rs (some p) e h = started-IsWhole first others limit p rs e h

  -- The rows that get_all_pages returns are those of every page: the first call was answered,
  -- every page that says that more follow has a key, and the call with that key was answered by a
  -- page that has the row list, until one says that no more follow; at most max_pages - 1 pages
  -- follow the first.
  pub get_all_pages-IsWhole :
      (first : String) (others : List String) (limit : ℕ) (rs : List R)
      → get_all_pages client first others limit ≡ fetched rs
      → IsWhole first others (limit - 1) rs
  unfolding get_all_pages iter_pages
  get_all_pages-IsWhole first others limit rs h =
      found-IsWhole first others limit rs (client 0 none) refl h

  -- If the first page has rows under one of the names, and the last one can be read with fewer
  -- than max_pages pages after the first, then get_all_pages returns the rows of all of them.
  pub get_all_pages_returns :
      (first key : String) (others : List String) (limit k : ℕ) (p : Page R) (rs : List R)
      → client 0 none ≡ some p
      → choose_key (first ∷ others) p ≡ some key
      → Reads key k 1 p rs
      → k < limit
      → get_all_pages client first others limit ≡ fetched (rows_of (p.field key) ++ rs)
  unfolding get_all_pages iter_pages iter_found start_pages
  get_all_pages_returns first key others limit k p rs e c r low =
      rw (e, c)
        (also-collect (rows_of (p.field key)) (follow client key (limit - 1) 1 p) rs
          (follow_all key (limit - 1) 1 k p rs (omega arith) r))
