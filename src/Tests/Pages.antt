-- ===== src/Tests/Pages.antt =====
-- Runs of packages/web/graphql-client/src/pagination.ts, over a list of rows as the server.
use predictor_common.Prelude.Text.{Text, codes}
use predictor_common.Prelude.Digits.{decimal, value, value-decimal}
use predictor_common.Prelude.{
  ℕ, ◌+◌, ◌≡◌, refl, ap, Option, none, some, List, [], ◌∷◌, take, drop, ltb, length, ◌≤◌, ◌<◌, ◌*◌,
  ◌⊎◌,
}
use predictor_common.Graphql.Pages.{
  ItemsConnection, ItemsResponse, finite, infinite, not_a_number, page_count,
  pagination_to_connection_cursor,
}
use predictor_common.Graphql.Pages.Tiling.{
  Serves, Images, SomeRejects, fetch_page, walk, walk-pages,
}

abbrev rows : List ℕ
rows = 4 ∷ 5 ∷ 6 ∷ 7 ∷ 8 ∷ []

abbrev offset : Option Text → ℕ
offset none = 0
offset (some cursor) = value cursor

abbrev server : ℕ → Option Text → ItemsConnection ℕ
server first after = record {
  nodes = take first (drop (offset after) rows);
  page_info = record {
    start_cursor = [];
    end_cursor = [];
    has_next_page = ltb (offset after + first) 5;
    has_previous_page = ltb 0 (offset after);
  };
  total_count = some 5;
}

serves : Serves rows server
serves = record {
  from_start = λ first. refl;
  from_cursor = λ first offset. ap (λ n. take first (drop n rows)) (value-decimal offset);
  counts = λ first after. refl;
}

abbrev doubled : ℕ → Option ℕ
doubled n = some (n + n)

third_page_test :
    pagination_to_connection_cursor (record { page = 3; page_size = 10 })
    ≡ record { first = 10; after = some (codes "20") }
unfolding pagination_to_connection_cursor decimal
third_page_test = refl

page_zero_test :
    pagination_to_connection_cursor (record { page = 0; page_size = 10 })
    ≡ record { first = 10; after = some (codes "-10") }
unfolding pagination_to_connection_cursor decimal
page_zero_test = refl

no_size_test : page_count (some 5) 0 ≡ some infinite
no_size_test = refl

no_rows_test : page_count (some 0) 0 ≡ some not_a_number
no_rows_test = refl

walk-pages_example :
    (count : ℕ) × (length rows ≤ count * 2)
    × (count * 2 < length rows + 2)
    × (((ys : List ℕ) × (response : ItemsResponse ℕ) × Images doubled rows ys
          × (fetch_page server doubled (record { page = 1; page_size = 2 }) ≡ some response)
          × (response.page_info.total_page_count ≡ some (finite count))
          × (walk server doubled 2 1 count ≡ some ys))
        ⊎ (SomeRejects doubled rows × (walk server doubled 2 1 count ≡ none)))
walk-pages_example = walk-pages rows server doubled 1 serves
