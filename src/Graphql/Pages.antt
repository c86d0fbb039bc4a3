-- ===== src/Graphql/Pages.antt =====
-- packages/web/graphql-client/src/pagination.ts: pages counted from one, and the connections that the
-- server answers with. A page's number and size are natural numbers.
pub mod Tiling
use predictor_common.Prelude.Text.{Text}
use predictor_common.Prelude.Digits.{decimal}
use predictor_common.Prelude.Int.{ℤ, pos, negsuc}
use predictor_common.Prelude.{
  ℕ, zero, suc, ◌+◌, ◌*◌, ◌/◌, Bool, false, Option, none, some, List, [], ◌∷◌,
}

pub record PaginationOptions : Type 0 where
  pub page : ℕ
  pub page_size : ℕ

abbrev pub default_page_size : ℕ
default_page_size = 10

-- A `number` that is no integer stands apart.
pub data Count : Type 0 where
  finite : ℕ → Count
  infinite not_a_number : Count

pub record PageInfo : Type 0 where
  pub page : ℕ
  pub page_size : ℕ
  pub total_page_count : Option Count
  pub has_previous : Bool
  pub has_next : Bool

pub record ConnectionPageInfo : Type 0 where
  pub start_cursor : Text
  pub end_cursor : Text
  pub has_next_page : Bool
  pub has_previous_page : Bool

pub record ItemsConnection {ℓ} (T : Type ℓ) : Type ℓ where
  pub nodes : List T
  pub page_info : ConnectionPageInfo
  pub total_count : Option ℕ

pub record ItemsResponse {ℓ} (R : Type ℓ) : Type ℓ where
  pub items : List R
  pub page_info : PageInfo
  pub total_count : Option ℕ

pub record Cursor : Type 0 where
  pub first : ℕ
  pub after : Option Text

abbrev pub negated : ℕ → ℤ
negated zero = pos 0
negated (suc n) = negsuc n

-- `(page - 1) * pageSize`.
abbrev pub offset_of : ℕ → ℕ → ℤ
offset_of zero page_size = negated page_size
offset_of (suc n) page_size = pos (n * page_size)

abbrev pub after_offset : ℤ → Option Text
after_offset (pos zero) = none
after_offset (pos (suc n)) = some (decimal (suc n))
after_offset (negsuc n) = some (b'-' ∷ decimal (suc n))

unfoldable pub pagination_to_connection_cursor : PaginationOptions → Cursor
pagination_to_connection_cursor p = record {
  first = p.page_size;
  after = after_offset (offset_of p.page p.page_size);
}

-- `Math.ceil(total / pageSize)`.
abbrev pub ceil_div : ℕ → ℕ → Count
ceil_div n (suc k) = finite ((n + k) / suc k)
ceil_div zero zero = not_a_number
ceil_div (suc n) zero = infinite

abbrev pub page_count : Option ℕ → ℕ → Option Count
page_count none page_size = none
page_count (some total) page_size = some (ceil_div total page_size)

abbrev pub prepend {ℓ} : {R : Type ℓ} → Option R → Option (List R) → Option (List R)
prepend none rows = none
prepend (some row) none = none
prepend (some row) (some rows) = some (row ∷ rows)

-- `Promise.all` of the transformed nodes, where `none` is a rejection.
pub transform_all {ℓ κ} : {T : Type ℓ} {R : Type κ} → (T → Option R) → List T → Option (List R)
transform_all transform [] = some []
transform_all transform (node ∷ nodes) = prepend (transform node) (transform_all transform nodes)

abbrev pub response_of {ℓ κ} :
    {T : Type ℓ} {R : Type κ}
    → ItemsConnection T
    → PaginationOptions
    → Option (List R)
    → Option (ItemsResponse R)
response_of connection p none = none
response_of connection p (some rows) = some (record {
  items = rows;
  page_info = record {
    page = p.page;
    page_size = p.page_size;
    total_page_count = page_count connection.total_count p.page_size;
    has_previous = connection.page_info.has_previous_page;
    has_next = connection.page_info.has_next_page;
  };
  total_count = connection.total_count;
})

unfoldable pub extract_connection_items {ℓ κ} :
    {T : Type ℓ} {R : Type κ}
    → ItemsConnection T
    → PaginationOptions
    → (T → Option R)
    → Option (ItemsResponse R)
extract_connection_items connection p transform =
    response_of connection p (transform_all transform connection.nodes)

abbrev pub or_first_page : Option PaginationOptions → PaginationOptions
or_first_page none = record { page = 1; page_size = default_page_size }
or_first_page (some p) = p

unfoldable pub empty_items_response {ℓ} :
    {R : Type ℓ} → Option PaginationOptions → Option ℕ → ItemsResponse R
empty_items_response pagination total =
    let p = or_first_page pagination in
    record {
      items = [];
      page_info = record {
        page = p.page;
        page_size = p.page_size;
        total_page_count = page_count total p.page_size;
        has_previous = false;
        has_next = false;
      };
      total_count = total;
    }
