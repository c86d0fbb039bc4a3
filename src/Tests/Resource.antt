-- ===== src/Tests/Resource.antt =====
-- Runs of packages/web/graphql-client/src/fetchGraphql.ts and the hooks, over a `fetch` that answers
-- by the URL.
use predictor_common.Prelude.Text.{Text, codes, ends_with}
use predictor_common.Prelude.Digits.{decimal}
use predictor_common.Prelude.{
  ℕ, ◌≡◌, refl, inr, ◌⊎◌, true, false, none, some, [], ◌∷◌, if◌then◌else◌,
}
use predictor_common.Graphql.Fragments.{collect, visit_names, visit_name, spread_names}
use predictor_common.Graphql.Fetch.{
  registry, plain_map, GraphqlRequest, Cause, raw, no_match_all, rejected, fetch_error, message_of,
  envelope, HttpRequest, Fetched, responds, Outcome, resolve_document, fetch_graphql,
}
use predictor_common.Graphql.Resource.{SwrState}
use predictor_common.Graphql.Resource.States.{Settled, Renders, use_resource-fetch_graphql}

abbrev stringify : Text → ℕ → Cause ⊎ Text
stringify document variables = inr document

abbrev fetch : HttpRequest → Fetched Text
fetch request =
    if ends_with request.to_url (codes "/graphql")
    then responds (record {
      is_ok = true;
      status = 200;
      status_text = codes "OK";
      body = envelope (some request.http_body) none;
    })
    else responds (record {
      is_ok = false;
      status = 404;
      status_text = codes "Not Found";
      body = envelope none none;
    })

abbrev request : Text → GraphqlRequest ℕ
request url = record {
  url = url;
  query = codes "{ a { ...F } }";
  variables = none;
  fragments = some (registry ((codes "F", codes "fragment F on A { b }") ∷ []));
  headers = [];
}

status_test :
    message_of (fetch_error (codes "http://h") 404 (some (codes "Not Found")))
    ≡ codes "Cannot fetch http://h: HTTP 404 (Not Found)"
unfolding message_of decimal
status_test = refl

abbrev inheriting : GraphqlRequest ℕ
inheriting = record (request (codes "http://h/graphql")) {
  query = codes "{ a { ...constructor } }";
  fragments = some (plain_map ((codes "F", codes "fragment F on A { b }") ∷ []));
}

-- Nothing is sent.
inherited_test : fetch_graphql 0 stringify fetch inheriting ≡ some (rejected (raw no_match_all))
unfolding fetch_graphql resolve_document collect visit_names visit_name spread_names
inherited_test = refl

use_resource-fetch_graphql_example :
    (outcome : Outcome Text) × (fetch_graphql 0 stringify fetch (request (codes "http://h/graphql"))
      ≡ some outcome)
    × ((state : SwrState Text)
        → Settled outcome state
        → Renders 0 stringify fetch (request (codes "http://h/graphql")) state)
use_resource-fetch_graphql_example =
    use_resource-fetch_graphql 0 stringify fetch (request (codes "http://h/graphql"))
