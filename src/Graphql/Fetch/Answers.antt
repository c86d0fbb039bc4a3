-- ===== src/Graphql/Fetch/Answers.antt =====
-- The outcomes of `fetchGraphql` in packages/web/graphql-client/src/fetchGraphql.ts by what `fetch` did.
use predictor_common.Prelude.Text.{Text}
use predictor_common.Prelude.{
  ◌≡◌, refl, ap, ◌⊎◌, inl, inr, Bool, true, false, Option, none, some, List, if◌then◌else◌,
}
use predictor_common.Graphql.Fetch.Inherited.{SpreadsInherited, resolve_document-cases}
use predictor_common.Graphql.Fetch.{
  GraphqlRequest, Cause, GraphqlError, Thrown, data_error, network_error, fetch_error, raw, Body,
  unreadable, null_body, envelope, Response, HttpRequest, Fetched, rejects, responds, Outcome,
  resolved, rejected, no_match_all, resolve_document, status_text_of, first_message, errors_of,
  read_body, read_response, answer_to, with_document, fetch_graphql,
}

-- A response that is ok and whose body has data.
pub data HasData {D : Type 0} : Fetched D → D → Type 0 where
  with_data :
      (r : Response D) (d : D) (errors : Option (List GraphqlError))
      → r.is_ok ≡ true
      → r.body ≡ envelope (some d) errors
      → HasData (responds r) d

-- No response, one that is not ok, or one whose body has no data.
pub data Fails {D : Type 0} (url : Text) : Fetched D → Thrown → Type 0 where
  no_response : (cause : Cause) → Fails url (rejects cause) (network_error url cause)
  bad_status :
      (r : Response D)
      → r.is_ok ≡ false
      → Fails url (responds r) (fetch_error url r.status (status_text_of r.status_text))
  without_data :
      (r : Response D) (errors : Option (List GraphqlError))
      → r.is_ok ≡ true
      → r.body ≡ envelope none errors
      → Fails url (responds r) (data_error (first_message (errors_of errors)) (errors_of errors))

-- A response that is ok and whose body is no JSON, or `null`.
pub data Unread {D : Type 0} : Fetched D → Type 0 where
  no_json :
      (r : Response D) (cause : Cause)
      → r.is_ok ≡ true
      → r.body ≡ unreadable cause
      → Unread (responds r)
  null_json : (r : Response D) → r.is_ok ≡ true → r.body ≡ null_body → Unread (responds r)

-- What was fetched, with the outcome that belongs to it.
pub data Read {D : Type 0} (url : Text) (fetched : Fetched D) : Outcome D → Type 0 where
  got : (d : D) → HasData fetched d → Read url fetched (resolved d)
  failed_with : (e : Thrown) → Fails url fetched e → Read url fetched (rejected e)
  threw : (cause : Cause) → Unread fetched → Read url fetched (rejected (raw cause))

body-Read :
    {D : Type 0} (url : Text) (r : Response D) (body : Body D)
    → r.is_ok ≡ true
    → r.body ≡ body
    → Read url (responds r) (read_body body)
body-Read url r (unreadable cause) ok e = threw cause (no_json r cause ok e)
body-Read url r null_body ok e = threw _ (null_json r ok e)
body-Read url r (envelope none errors) ok e = failed_with _ (without_data r errors ok e)
body-Read url r (envelope (some d) errors) ok e = got d (with_data r d errors ok e)

status-Read :
    {D : Type 0} (url : Text) (r : Response D) (is_ok : Bool)
    → r.is_ok ≡ is_ok
    → Read url (responds r) (
        if is_ok
        then read_body r.body
        else rejected (fetch_error url r.status (status_text_of r.status_text)))
status-Read url r true ok = body-Read url r r.body ok refl
status-Read url r false bad = failed_with _ (bad_status r bad)

pub response-Read :
    {D : Type 0} (url : Text) (fetched : Fetched D) → Read url fetched (read_response url fetched)
response-Read url (rejects cause) = failed_with (network_error url cause) (no_response cause)
response-Read url (responds r) = status-Read url r r.is_ok refl

module _ {V D : Type 0} (no_variables : V) (stringify : Text → V → Cause ⊎ Text)
    (fetch : HttpRequest → Fetched D) where
  -- Before anything is sent, it throws where a name is spread that the record inherits; otherwise the
  -- answer to the document decides.
  abbrev pub Settles : GraphqlRequest V → Outcome D → Type 0
  Settles request outcome =
      (SpreadsInherited request.query request.fragments × (outcome ≡ rejected (raw no_match_all)))
      ⊎ ((SpreadsInherited request.query request.fragments → ⊥)
          × (document : Text) × (resolve_document request.query request.fragments
              ≡ some (inr document))
          × Read request.url (answer_to no_variables stringify fetch request document) outcome)

  pub fetch_graphql-Settles :
      (request : GraphqlRequest V)
      → (outcome : Outcome D) × (fetch_graphql no_variables stringify fetch request ≡ some outcome)
        × Settles request outcome
  unfolding fetch_graphql
  fetch_graphql-Settles request = elim (resolve_document-cases request.query request.fragments) [
    | inl (spreads, e) ↦ (
      rejected (raw no_match_all),
      ap (with_document no_variables stringify fetch request) e,
      inl (spreads, refl),
    )
    | inr (plain, document, e) ↦ (
      read_response request.url (answer_to no_variables stringify fetch request document),
      ap (with_document no_variables stringify fetch request) e,
      inr (
        plain,
        document,
        e,
        response-Read request.url (answer_to no_variables stringify fetch request document),
      ),
    )
  ]
