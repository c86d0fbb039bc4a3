-- ===== src/Squid/Inputs.antt =====
-- packages/indexer/squid-common/src/inputs.ts: the arguments of the resolvers. A schema is what its
-- `safeParse` gives; `Date` gives the time of a text, `none` for an invalid date.
pub mod Ranges
use predictor_common.Prelude.Text.{Text, codes, join}
use predictor_common.Prelude.Int.{ℤ, pos, negsuc}
use predictor_common.Prelude.{
  ℕ, Bool, true, false, ◌&&◌, Option, none, some, List, [], ◌∷◌, ◌++◌, map, leb, if◌then◌else◌,
}

pub record Issue : Type 0 where
  pub path : List Text
  pub message : Text

pub data SafeParse {ℓ} (A : Type ℓ) : Type ℓ where
  success : A → SafeParse A
  failure : List Issue → SafeParse A

-- What `parseArgs` returns, or the message that it throws.
pub data Checked {ℓ} (A : Type ℓ) : Type ℓ where
  returned : A → Checked A
  thrown : Text → Checked A

abbrev pub or_root : Text → Text
or_root [] = codes "(root)"
or_root (c ∷ s) = c ∷ s

abbrev pub issue_text : Issue → Text
issue_text i = or_root (join (codes ".") i.path) ++ (codes ": " ++ i.message)

abbrev pub issues_text : List Issue → Text
issues_text issues = join (codes "; ") (map issue_text issues)

abbrev pub of_parse {ℓ} : {A : Type ℓ} → Text → SafeParse A → Checked A
of_parse query_name (success a) = returned a
of_parse query_name (failure issues) =
    thrown (codes "Invalid arguments to " ++ (query_name ++ (codes ": " ++ issues_text issues)))

unfoldable pub parse_args {ℓ κ} :
    {A : Type ℓ} {B : Type κ} → (A → SafeParse B) → A → Text → Checked B
parse_args schema args query_name = of_parse query_name (schema args)

abbrev pub le_time : ℤ → ℤ → Bool
le_time (pos m) (pos n) = leb m n
le_time (pos m) (negsuc n) = false
le_time (negsuc m) (pos n) = true
le_time (negsuc m) (negsuc n) = leb n m

abbrev pub max_query_limit : ℕ
max_query_limit = 1000

-- Of an integer.
unfoldable pub limit_input : ℤ → Option ℕ
limit_input (negsuc n) = none
limit_input (pos n) = if leb 1 n && leb n max_query_limit then some n else none

unfoldable pub offset_input : ℤ → Option ℕ
offset_input (negsuc n) = none
offset_input (pos n) = some n

pub record DateRange : Type 0 where
  pub start_time : ℤ
  pub end_time : ℤ

abbrev pub ordered : DateRange → SafeParse DateRange
ordered r =
    if le_time r.start_time r.end_time
    then success r
    else failure (
        record {
          path = codes "startTime" ∷ [];
          message = codes "startTime must be before or equal to endTime";
        }
        ∷ [])

-- `date_issue` is what the schema says of an invalid date.
module _ (time_of : Text → Option ℤ) (date_issue : Text) where
  abbrev pub dated : Text → Option ℤ → SafeParse ℤ
  dated field none = failure (record { path = field ∷ []; message = date_issue } ∷ [])
  dated field (some t) = success t

  abbrev pub date_input : Text → Text → SafeParse ℤ
  date_input field text = dated field (time_of text)

  -- The object's issues are those of its fields, and the order is of_parse where there are none.
  abbrev pub range_of : SafeParse ℤ → SafeParse ℤ → SafeParse DateRange
  range_of (success start) (success end) = ordered (record { start_time = start; end_time = end })
  range_of (success start) (failure issues) = failure issues
  range_of (failure issues) (success end) = failure issues
  range_of (failure issues) (failure more) = failure (issues ++ more)

  unfoldable pub date_range_input : Text × Text → SafeParse DateRange
  date_range_input (start, end) =
      range_of (date_input (codes "startTime") start) (date_input (codes "endTime") end)
