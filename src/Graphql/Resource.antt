-- ===== src/Graphql/Resource.antt =====
-- packages/web/graphql-client/src/react: `useResource` and `usePaginatedResource` over the state that
-- SWR gives them. A hook's result is the resource of its render and what its effect throws.
pub mod States
use predictor_common.Prelude.{
  ℕ, Bool, true, false, Option, none, some, List, [], ◌∷◌, if◌then◌else◌,
}
use predictor_common.Graphql.Pages.{
  Count, PageInfo, ItemsResponse, default_page_size, PaginationOptions,
}
use predictor_common.Graphql.Fetch.{Thrown, is_non_fatal}

pub data Resource {ℓ} (T : Type ℓ) : Type ℓ where
  loading not_found : Resource T
  failed : Thrown → Resource T
  ready : T → Resource T

pub data PaginatedResource {ℓ} (T : Type ℓ) : Type ℓ where
  page_loading : PaginatedResource T
  page_failed : Thrown → PaginatedResource T
  page_empty : PageInfo → Option ℕ → PaginatedResource T
  page_ready : List T → PageInfo → Option ℕ → PaginatedResource T

-- The parts of SWR's answer that the hook reads; a fetcher that found nothing leaves no data.
pub record SwrState {ℓ} (T : Type ℓ) : Type ℓ where
  pub swr_data : Option T
  pub is_loading : Bool
  pub swr_error : Option Thrown

pub record Rendered {ℓ} (T : Type ℓ) : Type ℓ where
  pub shown : Resource T
  pub boundary : Option Thrown

-- The key of the request, where `none` is no request.
abbrev pub swr_key {ℓ} : {K : Type ℓ} → Bool → K → Option K
swr_key skip key = if skip then none else some key

abbrev pub fatal_only : Option Thrown → Option Thrown
fatal_only none = none
fatal_only (some e) = if is_non_fatal e then none else some e

abbrev pub of_data {ℓ} : {T : Type ℓ} → Option T → Resource T
of_data none = not_found
of_data (some d) = ready d

abbrev pub when_loaded {ℓ} : {T : Type ℓ} → SwrState T → Resource T
when_loaded state = if state.is_loading then loading else of_data state.swr_data

abbrev pub resource_of {ℓ} : {T : Type ℓ} → SwrState T → Option Thrown → Resource T
resource_of state none = when_loaded state
resource_of state (some e) = if is_non_fatal e then failed e else when_loaded state

unfoldable pub use_resource {ℓ} : {T : Type ℓ} → SwrState T → Rendered T
use_resource state = record {
  shown = resource_of state state.swr_error;
  boundary = fatal_only state.swr_error;
}

abbrev pub no_page_info : PaginationOptions → PageInfo
no_page_info p = record {
  page = p.page;
  page_size = p.page_size;
  total_page_count = none;
  has_previous = false;
  has_next = false;
}

abbrev pub page_of {ℓ} : {T : Type ℓ} → ItemsResponse T → List T → PaginatedResource T
page_of response [] = page_empty response.page_info response.total_count
page_of response (row ∷ rows) = page_ready (row ∷ rows) response.page_info response.total_count

unfoldable pub paginated {ℓ} :
    {T : Type ℓ} → PaginationOptions → Resource (ItemsResponse T) → PaginatedResource T
paginated p loading = page_loading
paginated p (failed e) = page_failed e
paginated p not_found = page_empty (no_page_info p) none
paginated p (ready response) = page_of response response.items

abbrev pub or_number : Option ℕ → ℕ → ℕ
or_number none fallback = fallback
or_number (some n) fallback = n

-- The page's number and size with their defaults, and the hook over `useResource`.
unfoldable pub use_paginated_resource {ℓ} :
    {T : Type ℓ} → Option ℕ → Option ℕ → SwrState (ItemsResponse T) → PaginatedResource T
use_paginated_resource page page_size state =
    let p : PaginationOptions = record {
      page = or_number page 1;
      page_size = or_number page_size default_page_size;
    } in
    paginated p (use_resource state).shown
