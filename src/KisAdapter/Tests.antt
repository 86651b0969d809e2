-- ===== src/KisAdapter/Tests.antt =====
-- The pagination theorems at a client with two pages.
use claude_code_and_vive_cod.Prelude.{ℕ, zero, suc, ◌≡◌, refl, Bool, some, [], ◌∷◌, arith, ◌==◌}
use claude_code_and_vive_cod.Text.{codes}
use claude_code_and_vive_cod.KisAdapter.Pagination.{
  Page, many, Client, fetched, get_all_pages, choose_key, has_more, no_key,
}
use claude_code_and_vive_cod.KisAdapter.Pagination.Complete.{
  IsWhole, Reads, last, more, get_all_pages-IsWhole, get_all_pages_returns,
}

abbrev page_one : Page ℕ
page_one = record { cont = "F"; fk = codes "A1"; nk = []; field = λ k. many (1 ∷ 2 ∷ []) }

abbrev page_two : Page ℕ
page_two = record { cont = "D"; fk = []; nk = []; field = λ k. many (3 ∷ []) }

abbrev two_pages : Client ℕ
two_pages zero keys = some page_one
two_pages (suc n) keys = some page_two

two_pages-Reads : Reads two_pages "output1" 1 1 page_one (3 ∷ [])
unfolding has_more no_key claude_code_and_vive_cod.KisAdapter.Pagination.rows_of
two_pages-Reads = more refl refl refl refl (last refl)

get_all_pages_returns_example : get_all_pages two_pages "output1" [] 20 ≡ fetched (1 ∷ 2 ∷ 3 ∷ [])
unfolding choose_key claude_code_and_vive_cod.KisAdapter.Pagination.rows_of
get_all_pages_returns_example =
    get_all_pages_returns two_pages "output1" "output1" [] 20 1 page_one (3 ∷ []) refl refl
      two_pages-Reads (ground arith)

get_all_pages-IsWhole_example : IsWhole two_pages "output1" [] 19 (1 ∷ 2 ∷ 3 ∷ [])
unfolding get_all_pages claude_code_and_vive_cod.KisAdapter.Pagination.collect
    claude_code_and_vive_cod.KisAdapter.Pagination.iter_pages
    claude_code_and_vive_cod.KisAdapter.Pagination.iter_found
    claude_code_and_vive_cod.KisAdapter.Pagination.start_pages choose_key
    claude_code_and_vive_cod.KisAdapter.Pagination.follow has_more no_key
    claude_code_and_vive_cod.KisAdapter.Pagination.rows_of
get_all_pages-IsWhole_example =
    get_all_pages-IsWhole two_pages "output1" [] 20 (1 ∷ 2 ∷ 3 ∷ []) refl

abbrev is_three : ℕ → Bool
is_three n = n == 3
