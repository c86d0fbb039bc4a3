-- ===== src/Tests/Indexer.antt =====
-- Runs of the numbers, the entities and the configuration of packages/indexer/squid-common.
use predictor_common.Prelude.Text.{Text, codes, text_eq, text_eq_iff}
use predictor_common.Prelude.Digits.{decimal, value, value-decimal, decimal-ne-nil}
use predictor_common.Prelude.Int.{ℤ, pos}
use predictor_common.Prelude.Dict.{get, text_key}
use predictor_common.Prelude.{
  ℕ, ◌+◌, ◌-◌, ◌≤◌, ◌≡◌, ◌≢◌, refl, sym, ap, ◌∙◌, true, Bool-cases, ltb, Option, none, some, List,
  [], ◌∷◌, inl, inr, if◌then◌else◌, arith,
}
use predictor_common.Squid.Numeric.{
  BigDecimals, ◌>>=◌, accumulate_all, new_accumulator, to_string_or_null, sum_strings,
}
use predictor_common.Squid.Numeric.Sums.{parse_all, sum_of, text_of, accumulator-refines}
use predictor_common.Squid.Entity.{EntityStore, Settled, fulfilled, get_or_create_and_update}
use predictor_common.Squid.Entity.Rows.{IsUpsert, Replaces, get_or_create_and_update-again}
use predictor_common.Squid.Config
use predictor_common.Squid.Config.{Environment, BaseEnv, ProcessorConfig, parse_processor_env}
use predictor_common.Squid.Config.Bounds.{parse_processor_env-bounds}

-- Natural numbers for decimals.
abbrev parse_digits : Text → Option ℕ
parse_digits [] = none
parse_digits (c ∷ s) = some (value (c ∷ s))

parse_digits-value : (s : Text) → s ≢ [] → parse_digits s ≡ some (value s)
parse_digits-value [] h = absurd (h refl)
parse_digits-value (c ∷ s) h = refl

parse_digits-decimal : (n : ℕ) → parse_digits (decimal n) ≡ some n
parse_digits-decimal n =
    parse_digits-value (decimal n) (decimal-ne-nil n) ∙ ap (λ k. some k) (value-decimal n)

add-zero : (n : ℕ) → n + 0 ≡ n
add-zero n = omega arith

zero-add : (n : ℕ) → 0 + n ≡ n
zero-add n = omega arith

add_assoc : (a b c : ℕ) → a + b + c ≡ a + (b + c)
add_assoc a b c = omega arith

abbrev naturals : BigDecimals
naturals = record {
  BigDecimal = ℕ;
  parse = parse_digits;
  zero = 0;
  add = ◌+◌;
  sub = ◌-◌;
  div = λ a b. none;
  gt = λ a b. ltb b a;
  to_text = decimal;
  add-zero = add-zero;
  zero-add = zero-add;
  add_assoc = add_assoc;
  parse-to_text = parse_digits-decimal;
}

abbrev amounts : List (Option Text)
amounts = some (codes "12") ∷ none ∷ some (codes "30") ∷ []

sum_test : sum_strings naturals amounts ≡ some (some (codes "42"))
unfolding sum_strings decimal
sum_test = refl

nothing_test : sum_strings naturals (none ∷ none ∷ []) ≡ some none
unfolding sum_strings
nothing_test = refl

accumulator-refines_example :
    ((do
      a ← accumulate_all naturals (new_accumulator naturals) amounts
      some (to_string_or_null naturals a))
      ≡ (do ds ← parse_all naturals amounts; some (text_of naturals (sum_of naturals ds))))
    × (sum_strings naturals amounts
        ≡ (do ds ← parse_all naturals amounts; some (text_of naturals (sum_of naturals ds))))
accumulator-refines_example = accumulator-refines naturals amounts

-- Entities of an id and a count, the last one saved first.
abbrev Row : Type 0
Row = Text × ℕ

abbrev find_row : List Row → Text → Option Row
find_row [] id = none
find_row (row ∷ rows) id = if text_eq row.0 id then some row else find_row rows id

find_row-id : (rows : List Row) (id : Text) (row : Row) → find_row rows id ≡ some row → row.0 ≡ id
find_row-id [] id row h = absurd (cc h)
find_row-id (r ∷ rows) id row h = elim (Bool-cases (text_eq r.0 id)) [
  | inl same ↦
      let is : some r ≡ some row = rw same at h in
      let e : r ≡ row = cc is in ap (λ x. x.0) (sym e) ∙ (text_eq_iff r.0 id).0 same
  | inr other ↦ find_row-id rows id row (rw other at h)
]

find-save :
    (s : List Row) (e : Row) (s' : List Row) (id : Text)
    → Settled.fulfilled (e ∷ s) ≡ fulfilled s'
    → find_row s' id ≡ (if text_eq e.0 id then some e else find_row s id)
find-save s e s' id h = let same : e ∷ s ≡ s' = cc h in ap (λ l. find_row l id) (sym same)

abbrev rows_store : EntityStore (List Row) Row
rows_store = record {
  id_of = λ row. row.0;
  find = find_row;
  save = λ rows row. fulfilled (row ∷ rows);
  find-save = find-save;
  find-id = find_row-id;
}

-- The update sets the count.
abbrev refresh : Row → Row
refresh row = (row.0, 5)

abbrev rows : List Row
rows = (codes "a", 1) ∷ (codes "b", 2) ∷ []

abbrev updated : Row
updated = (codes "b", 5)

get_or_create_and_update-again_example :
    IsUpsert rows_store rows (codes "b") (codes "b", 0) refresh updated
    × Replaces rows_store rows (codes "b") updated (updated ∷ rows)
    × (updated ≡ updated)
    × ((other : Text) → find_row (updated ∷ updated ∷ rows) other ≡ find_row (updated ∷ rows) other)
unfolding get_or_create_and_update
get_or_create_and_update-again_example =
    get_or_create_and_update-again rows_store rows (updated ∷ rows) (updated ∷ updated ∷ rows)
      (codes "b") (codes "b", 0) updated updated refresh refl (λ e. refl) (λ e. refl) refl refl

-- An environment with a window of blocks.
abbrev variables : Environment
variables = get (
    (codes "BLOCK_FROM", codes "10")
    ∷ (codes "BLOCK_TO", codes "20")
    ∷ (codes "SS58_PREFIX", codes "7391")
    ∷ [])

abbrev integer_of : Text → Option ℤ
integer_of s = some (pos (value s))

abbrev no_extra : Environment → Option ((BaseEnv → BaseEnv) × ℕ)
no_extra env = some ((λ base. base), 0)

abbrev window : BaseEnv
window = record {
  rpc_endpoint = [];
  archive_url = codes "http://localhost:8888/graphql";
  block_from = 10;
  block_to = some 20;
  ss58_prefix = 7391;
}

abbrev spread_of : Option ((BaseEnv → BaseEnv) × ℕ) → BaseEnv → BaseEnv
spread_of none base = base
spread_of (some (spread, rest)) base = spread base

parse_processor_env-bounds_example :
    (7391 ≤ 16383)
    × ((to : ℕ) → ◌≡◌ {A = Option ℕ} (some 20) (some to) → 10 ≤ to)
    × (Config.base_env integer_of (λ s. true) variables ≡ some window)
    × (Config.config_of window ≡ Config.config_of window)
unfolding parse_processor_env
parse_processor_env-bounds_example =
    parse_processor_env-bounds integer_of (λ s. true) no_extra variables window 0
      (Config.config_of window) (λ spread rest h base. ap (λ o. spread_of o base) (sym h)) refl
