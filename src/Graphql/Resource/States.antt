-- ===== src/Graphql/Resource/States.antt =====
-- What the hooks of packages/web/graphql-client/src/react show of what `fetchGraphql` came to.
use mathlib.Core.Path.{subst}
use predictor_common.Prelude.Text.{Text}
use predictor_common.Graphql.Fetch.Inherited.{SpreadsInherited}
use predictor_common.Prelude.{
  ℕ, zero, ◌<◌, ◌≡◌, refl, inl, inr, ◌⊎◌, true, false, Option, none, some, List, [], ◌∷◌, length,
  arith,
}
use predictor_common.Graphql.Pages.{PaginationOptions, ItemsResponse}
use predictor_common.Graphql.Fetch.{
  GraphqlRequest, Cause, Thrown, is_non_fatal, raw, HttpRequest, Fetched, Outcome, resolved,
  rejected, no_match_all, resolve_document, answer_to, fetch_graphql,
}
use predictor_common.Graphql.Fetch.Answers.{
  HasData, Fails, no_response, bad_status, without_data, Unread, Read, got, failed_with, threw,
  Settles, fetch_graphql-Settles,
}
use predictor_common.Graphql.Resource.{
  Resource, loading, not_found, failed, ready, PaginatedResource, page_loading, page_failed,
  page_empty, page_ready, SwrState, Rendered, fatal_only, resource_of, use_resource, paginated,
  page_of, use_paginated_resource,
}

-- The state that SWR gives once a fetch has settled: the data, or the error beside older data.
pub data Settled {D : Type 0} : Outcome D → SwrState D → Type 0 where
  with_value :
      (d : D)
      → Settled (resolved d) (record { swr_data = some d; is_loading = false; swr_error = none })
  with_error :
      (e : Thrown) (older : Option D)
      → Settled (rejected e) (record { swr_data = older; is_loading = false; swr_error = some e })

Fails-is_non_fatal :
    {D : Type 0} (url : Text) (fetched : Fetched D) (e : Thrown)
    → Fails url fetched e
    → is_non_fatal e ≡ true
Fails-is_non_fatal url _ _ (no_response cause) = refl
Fails-is_non_fatal url _ _ (bad_status r bad) = refl
Fails-is_non_fatal url _ _ (without_data r errors ok e) = refl

-- The answer to a request, with what the hook renders of it.
abbrev pub Shows : {D : Type 0} → Text → Fetched D → Rendered D → Type 0
Shows {D = D} url fetched rendered =
    ((d : D) × HasData fetched d × (rendered.shown ≡ ready d) × (rendered.boundary ≡ none))
    ⊎ (((e : Thrown) × Fails url fetched e
          × (rendered.shown ≡ failed e)
          × (rendered.boundary ≡ none))
        ⊎ ((cause : Cause) × Unread fetched × (rendered.boundary ≡ some (raw cause))))

failed_state :
    {D : Type 0} (e : Thrown) (older : Option D)
    → is_non_fatal e ≡ true
    → (resource_of (record { swr_data = older; is_loading = false; swr_error = some e }) (some e)
        ≡ failed e)
      × (fatal_only (some e) ≡ none)
failed_state e older non_fatal = (rw (non_fatal) refl, rw (non_fatal) refl)

Read-Shows :
    {D : Type 0} (url : Text) (fetched : Fetched D) (outcome : Outcome D) (state : SwrState D)
    → Read url fetched outcome
    → Settled outcome state
    → Shows url fetched (use_resource state)
unfolding use_resource
Read-Shows url fetched _ _ (got d has) (with_value _) = inl (d, has, refl, refl)
Read-Shows url fetched _ _ (failed_with e fails) (with_error _ older) =
    let (shown, boundary) = failed_state e older (Fails-is_non_fatal url fetched e fails) in
    inr (inl (e, fails, shown, boundary))
Read-Shows url fetched _ _ (threw cause unread) (with_error _ older) =
    inr (inr (cause, unread, refl))

module _ {V D : Type 0} (no_variables : V) (stringify : Text → V → Cause ⊎ Text)
    (fetch : HttpRequest → Fetched D) where
  -- What the hook renders of a request in this state.
  abbrev pub Renders : GraphqlRequest V → SwrState D → Type 0
  Renders request state =
      (SpreadsInherited request.query request.fragments
        × ((use_resource state).boundary ≡ some (raw no_match_all)))
      ⊎ ((SpreadsInherited request.query request.fragments → ⊥)
          × (document : Text) × (resolve_document request.query request.fragments
              ≡ some (inr document))
          × Shows request.url (answer_to no_variables stringify fetch request document)
              (use_resource state))

  Settles-Renders :
      (request : GraphqlRequest V) (outcome : Outcome D) (state : SwrState D)
      → Settles no_variables stringify fetch request outcome
      → Settled outcome state
      → Renders request state
  unfolding use_resource
  Settles-Renders request outcome state (inl (spreads, is)) settled =
      inl (spreads, thrown state (subst (λ x. Settled x state) is settled))
    where
      thrown :
          (state : SwrState D)
          → Settled (rejected (raw no_match_all)) state
          → (use_resource state).boundary ≡ some (raw no_match_all)
      thrown _ (with_error _ older) = refl
  Settles-Renders request outcome state (inr (plain, document, e, reads)) settled =
      inr (plain, document, e, Read-Shows _ _ outcome state reads settled)

-- For every request `fetchGraphql` settles, and of the state that SWR then gives, `useResource` renders
-- this. Where the fragments are a plain record, and the query or a definition that it reaches spreads a
-- name that is no entry of the record but that every record inherits, it throws a TypeError to
-- the error boundary. Otherwise the fragments assemble to a document, and the hook shows the data if
-- the server answered it with an ok status and data; the error, with nothing for the error
-- boundary, if there was no response, a bad status or no data; and it throws to the error boundary if an
-- ok response was no JSON or `null`.
pub use_resource-fetch_graphql :
    {V D : Type 0} (no_variables : V) (stringify : Text → V → Cause ⊎ Text)
    (fetch : HttpRequest → Fetched D) (request : GraphqlRequest V)
    → (outcome : Outcome D) × (fetch_graphql no_variables stringify fetch request ≡ some outcome)
      × ((state : SwrState D)
          → Settled outcome state
          → Renders no_variables stringify fetch request state)
use_resource-fetch_graphql no_variables stringify fetch request =
    let (outcome, settles, is) = fetch_graphql-Settles no_variables stringify fetch request in
    (
      outcome,
      settles,
      λ state settled.
          Settles-Renders no_variables stringify fetch request outcome state is settled,
    )

-- A page that is ready has rows.
abbrev pub HasRows : {T : Type 0} → PaginatedResource T → Type 0
HasRows (page_ready rows info total) = zero < length rows
HasRows page_loading = Unit
HasRows (page_failed e) = Unit
HasRows (page_empty info total) = Unit

page_of-HasRows :
    {T : Type 0} (response : ItemsResponse T) (items : List T) → HasRows (page_of response items)
page_of-HasRows response [] = tt
page_of-HasRows response (row ∷ rows) = omega arith

paginated-HasRows :
    {T : Type 0} (p : PaginationOptions) (resource : Resource (ItemsResponse T))
    → HasRows (paginated p resource)
unfolding paginated
paginated-HasRows p loading = tt
paginated-HasRows p not_found = tt
paginated-HasRows p (failed e) = tt
paginated-HasRows p (ready response) = page_of-HasRows response response.items

pub use_paginated_resource-HasRows :
    {T : Type 0} (page page_size : Option ℕ) (state : SwrState (ItemsResponse T))
    → HasRows (use_paginated_resource page page_size state)
unfolding use_paginated_resource
use_paginated_resource-HasRows page page_size state = paginated-HasRows _ (use_resource state).shown
