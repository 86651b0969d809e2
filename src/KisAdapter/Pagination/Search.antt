-- ===== src/KisAdapter/Pagination/Search.antt =====
-- Searching page by page, and searching all rows.
use claude_code_and_vive_cod.Prelude.{
  ℕ, ◌≡◌, refl, sym, inl, inr, Bool, Option, none, some, List, [], ◌∷◌, ◌++◌, String, arith,
  Bool-cases,
}
use claude_code_and_vive_cod.KisAdapter.Pagination.{
  Client, iter_pages, Yielded, fetched, join, collect, first_match, found_or, search_pages,
  get_all_pages, find_row,
}
use mathlib.Core.Path.{subst}

module _ {R : Type 0} (accepts : R → Bool) where
  first_match-append :
      (xs ys : List R)
      → first_match accepts (xs ++ ys)
        ≡ elim (first_match accepts xs) [ none ↦ first_match accepts ys | some r ↦ some r ]
  first_match-append [] ys = refl
  first_match-append (x ∷ xs) ys = elim (Bool-cases (accepts x)) [
    | inl yes_x ↦ rw yes_x refl
    | inr no_x ↦ rw no_x (first_match-append xs ys)
  ]

  search_pages-join :
      (pages : List (List R))
      → search_pages accepts none pages ≡ fetched (first_match accepts (join pages))
  unfolding search_pages found_or
  search_pages-join [] = refl
  search_pages-join (rs ∷ pages) =
      subst
        (λ later.
          found_or (first_match accepts rs) later
          ≡ fetched (first_match accepts (rs ++ join pages)))
        (sym (search_pages-join pages))
        (rw (first_match-append rs (join pages)) (either (first_match accepts rs)))
    where
      either :
          (o : Option R)
          → found_or o (fetched (first_match accepts (join pages)))
            ≡ fetched (elim o [ none ↦ first_match accepts (join pages) | some r ↦ some r ])
      either none = refl
      either (some r) = refl

  -- Where get_all_pages returns a list, find_row returns the first row of that list that matches,
  -- or that there is none.
  pub find_row-get_all_pages :
      (client : Client R) (first : String) (others : List String) (limit : ℕ) (rs : List R)
      → get_all_pages client first others limit ≡ fetched rs
      → find_row client accepts first others limit ≡ fetched (first_match accepts rs)
  unfolding get_all_pages find_row collect
  find_row-get_all_pages client first others limit rs h =
      let y = (iter_pages client first others limit).1 in
      let (done, all) = parts y rs h in rw (done, all) (search_pages-join y.pages)
    where
      parts :
          (y : Yielded R) (rs : List R)
          → collect y ≡ fetched rs
          → (y.failure ≡ none) × (rs ≡ join y.pages)
      parts y rs h = ground arith
