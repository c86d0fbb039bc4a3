-- ===== src/Graphql/Fetch.antt =====
-- packages/web/graphql-client/src/fetchGraphql.ts and errors.ts: one request over HTTP and the errors
-- it can end with. `fetch` and `JSON.stringify` are given; a value thrown elsewhere is a `Cause`.
pub mod Answers
pub mod Inherited
use predictor_common.Prelude.Text.{Text, codes, has}
use predictor_common.Prelude.Digits.{decimal}
use predictor_common.Prelude.Dict.{get, put, text_key}
use predictor_common.Prelude.{
  ℕ, suc, Bool, true, false, ◌||◌, Option, none, some, List, [], ◌∷◌, ◌++◌, length, if◌then◌else◌,
  ◌⊎◌, inl, inr,
}
use predictor_common.Graphql.Fragments.{spread_names, document_of, collect, resolve}

pub data FragmentSource : Type 0 where
  registry plain_map : List (Text × Text) → FragmentSource

pub record GraphqlRequest {ℓ} (V : Type ℓ) : Type ℓ where
  pub url : Text
  pub query : Text
  pub variables : Option V
  pub fragments : Option FragmentSource
  pub headers : List (Text × Text)

-- What was thrown: an Error with its message, a string, or another value.
pub data Cause : Type 0 where
  error_object : Text → Cause
  string_value : Text → Cause
  other_value : Cause

pub record GraphqlError : Type 0 where
  pub message : Text

-- `raw` is a value that is no error of this package.
pub data Thrown : Type 0 where
  data_error : Text → List GraphqlError → Thrown
  network_error : Text → Cause → Thrown
  fetch_error : Text → ℕ → Option Text → Thrown
  raw : Cause → Thrown

abbrev pub is_non_fatal : Thrown → Bool
is_non_fatal (data_error message errors) = true
is_non_fatal (network_error url cause) = true
is_non_fatal (fetch_error url status status_text) = true
is_non_fatal (raw cause) = false

abbrev pub describe_cause : Cause → Text
describe_cause (error_object message) = message
describe_cause (string_value s) = s
describe_cause other_value = codes "unknown error"

abbrev pub in_parentheses : Option Text → Text
in_parentheses none = []
in_parentheses (some []) = []
in_parentheses (some (c ∷ s)) = codes " (" ++ (c ∷ s) ++ codes ")"

unfoldable pub message_of : Thrown → Text
message_of (data_error message errors) = message
message_of (network_error url cause) =
    codes "Cannot reach " ++ url ++ codes ": " ++ describe_cause cause
message_of (fetch_error url status status_text) =
    codes "Cannot fetch " ++ url ++ codes ": HTTP " ++ decimal status ++ in_parentheses status_text
message_of (raw cause) = describe_cause cause

-- The body of a response: it cannot be read as JSON, it is `null`, or it has these fields, where
-- absent and `null` are `none`.
pub data Body {ℓ} (D : Type ℓ) : Type ℓ where
  unreadable : Cause → Body D
  null_body : Body D
  envelope : Option D → Option (List GraphqlError) → Body D

pub record Response {ℓ} (D : Type ℓ) : Type ℓ where
  pub is_ok : Bool
  pub status : ℕ
  pub status_text : Text
  pub body : Body D

pub record HttpRequest : Type 0 where
  pub to_url : Text
  pub http_headers : List (Text × Text)
  pub http_body : Text

pub data Fetched {ℓ} (D : Type ℓ) : Type ℓ where
  rejects : Cause → Fetched D
  responds : Response D → Fetched D

pub data Outcome {ℓ} (D : Type ℓ) : Type ℓ where
  resolved : D → Outcome D
  rejected : Thrown → Outcome D

-- What a plain record has from `Object.prototype`; none of it is a string.
abbrev pub inherited_names : List Text
inherited_names =
    codes "constructor"
    ∷ codes "__defineGetter__"
    ∷ codes "__defineSetter__"
    ∷ codes "hasOwnProperty"
    ∷ codes "__lookupGetter__"
    ∷ codes "__lookupSetter__"
    ∷ codes "isPrototypeOf"
    ∷ codes "propertyIsEnumerable"
    ∷ codes "toString"
    ∷ codes "valueOf"
    ∷ codes "__proto__"
    ∷ codes "toLocaleString"
    ∷ []

-- `fragments[name]` is no own entry, but an inherited one.
abbrev pub is_inherited : List (Text × Text) → Text → Bool
is_inherited definitions name = elim (get definitions name) [
  | some own ↦ false
  | none ↦ has inherited_names name
]

abbrev pub reads_inherited : List (Text × Text) → List Text → Bool
reads_inherited definitions [] = false
reads_inherited definitions (name ∷ names) =
    is_inherited definitions name || reads_inherited definitions names

abbrev pub collects_inherited : List (Text × Text) → List (Text × Text) → Bool
collects_inherited definitions [] = false
collects_inherited definitions ((name, document) ∷ rest) =
    reads_inherited definitions (spread_names document) || collects_inherited definitions rest

-- `document.matchAll` of a value that is no string.
abbrev pub no_match_all : Cause
no_match_all = error_object (codes "document.matchAll is not a function")

-- `assembleDocument` over a plain record. An inherited value that a document spreads is collected and
-- pending like a definition, and as every pending value is popped before the loop ends, `spreadNames`
-- throws on it: the loop throws just if the query or a definition that is collected spreads such a name.
abbrev pub assembled :
    List (Text × Text) → Text → Option (List (Text × Text)) → Option (Cause ⊎ Text)
assembled definitions query none = none
assembled definitions query (some collected) =
    if reads_inherited definitions (spread_names query) || collects_inherited definitions collected
    then some (inl no_match_all)
    else some (inr (document_of query collected))

abbrev pub without_error : Option Text → Option (Cause ⊎ Text)
without_error none = none
without_error (some document) = some (inr document)

-- `none` if the rounds of the collection run out; on the left what it throws.
unfoldable pub resolve_document : Text → Option FragmentSource → Option (Cause ⊎ Text)
resolve_document query none = some (inr query)
resolve_document query (some (registry definitions)) = without_error (resolve definitions query)
resolve_document query (some (plain_map definitions)) =
    assembled definitions query
      (collect (λ name. get definitions name) (suc (length definitions)) [] (query ∷ []))

-- `{ "Content-Type": "application/json", ...headers }`.
abbrev pub merged : List (Text × Text) → List (Text × Text) → List (Text × Text)
merged base [] = base
merged base ((name, value) ∷ headers) = merged (put base name value) headers

abbrev pub headers_of : List (Text × Text) → List (Text × Text)
headers_of headers = merged ((codes "Content-Type", codes "application/json") ∷ []) headers

-- `statusText || undefined`.
abbrev pub status_text_of : Text → Option Text
status_text_of [] = none
status_text_of (c ∷ s) = some (c ∷ s)

abbrev pub first_message : List GraphqlError → Text
first_message [] = codes "GraphQL request returned no data"
first_message (e ∷ errors) = e.message

abbrev pub errors_of : Option (List GraphqlError) → List GraphqlError
errors_of none = []
errors_of (some errors) = errors

abbrev pub read_body {ℓ} : {D : Type ℓ} → Body D → Outcome D
read_body (unreadable cause) = rejected (raw cause)
read_body null_body =
    rejected (raw (error_object (codes "Cannot read properties of null (reading 'data')")))
read_body (envelope none errors) =
    rejected (data_error (first_message (errors_of errors)) (errors_of errors))
read_body (envelope (some d) errors) = resolved d

abbrev pub read_response {ℓ} : {D : Type ℓ} → Text → Fetched D → Outcome D
read_response url (rejects cause) = rejected (network_error url cause)
read_response url (responds r) =
    if r.is_ok
    then read_body r.body
    else rejected (fetch_error url r.status (status_text_of r.status_text))

module _ {ℓ κ} {V : Type ℓ} {D : Type κ} (no_variables : V) (stringify : Text → V → Cause ⊎ Text)
    (fetch : HttpRequest → Fetched D) where
  abbrev pub or_default : Option V → V
  or_default none = no_variables
  or_default (some variables) = variables

  -- The call inside `try`; the body is written before the request is sent.
  abbrev pub send : GraphqlRequest V → Cause ⊎ Text → Fetched D
  send request (inl cause) = rejects cause
  send request (inr body) =
      fetch (record {
        to_url = request.url;
        http_headers = headers_of request.headers;
        http_body = body;
      })

  abbrev pub answer_to : GraphqlRequest V → Text → Fetched D
  answer_to request document = send request (stringify document (or_default request.variables))

  abbrev pub with_document : GraphqlRequest V → Option (Cause ⊎ Text) → Option (Outcome D)
  with_document request none = none
  with_document request (some (inl cause)) = some (rejected (raw cause))
  with_document request (some (inr document)) =
      some (read_response request.url (answer_to request document))

  unfoldable pub fetch_graphql : GraphqlRequest V → Option (Outcome D)
  fetch_graphql request = with_document request (resolve_document request.query request.fragments)
