-- ===== src/Tests/Logger.antt =====
-- Runs of packages/service/logger.
use predictor_common.Prelude.Text.{Text, codes, lower, text_eq}
use predictor_common.Prelude.{
  ℕ, zero, suc, ◌≤◌, ◌<◌, ◌≡◌, refl, inr, inl, Bool, true, Option, none, some, List, [], ◌∷◌, map,
  arith,
}
use predictor_common.Logger.Words.{split_words, is_redact_key}
use predictor_common.Logger.Redaction.{
  Value, plain, string, ref, array, fields, Heap, node_at, Copy, kept, redacted, circular, items,
  entries, nil, cons, end, entry, redact,
}
use predictor_common.Logger.Redaction.Termination.{IsCopy, redact-IsCopy}
use predictor_common.Logger.Redaction.Secrecy.{LikeNode, redact_secret}
use predictor_common.Logger.Levels.{
  LoggerOptions, error, level_order, parse_log_level, info, default_redact_keys, or_else,
  create_logger, emit,
}
use predictor_common.Logger.Levels.Fields.{latest, chained, base_field}
use predictor_common.Logger.Levels.Shown.{Writes}
use predictor_common.Logger.Levels.Lines.{descend, emit_lem}

abbrev to_lower : Text → Text
to_lower = map lower

split_words_test :
    split_words to_lower (codes "parseHTTPUrl_v2-dbPassword")
    ≡ codes "parse" ∷ codes "http" ∷ codes "url" ∷ codes "v" ∷ codes "db" ∷ codes "password" ∷ []
unfolding split_words
split_words_test = refl

abbrev is_secret : Text → Bool
is_secret = is_redact_key to_lower (codes "token" ∷ [])

is_redact_key_test : is_secret (codes "accessToken") ≡ true
unfolding is_redact_key split_words
is_redact_key_test = refl

-- A record that holds itself, an array twice, and a secret.
abbrev tangle : ℕ → Heap
tangle secret =
    fields (
      (codes "self", ref 0)
      ∷ (codes "a", ref 1)
      ∷ (codes "b", ref 1)
      ∷ (codes "refresh_token", plain secret)
      ∷ [])
    ∷ array (plain 7 ∷ ref 5 ∷ [])
    ∷ []

redact_test :
    redact is_secret (tangle 9) 3 [] (ref 0)
    ≡ some (
        entries (
          entry (codes "self") circular (
            entry (codes "a") (items (cons (kept (plain 7)) (cons (kept (ref 5)) nil))) (
              entry
                (codes "b")
                (items (cons (kept (plain 7)) (cons (kept (ref 5)) nil)))
                (entry (codes "refresh_token") redacted end)))))
unfolding redact is_redact_key split_words
redact_test = refl

redact-IsCopy_example :
    (c : Copy) × (redact is_secret (tangle 9) 3 [] (ref 0) ≡ some c)
    × IsCopy is_secret (tangle 9) [] c (ref 0)
redact-IsCopy_example = redact-IsCopy is_secret (tangle 9) 3 [] (ref 0) (omega arith)

abbrev is_token : Text → Bool
is_token k = text_eq k (codes "refresh_token")

abbrev Public : ℕ → Type 0
Public a = Unit

tangle-like :
    (a : ℕ) → Public a → LikeNode is_token Public (node_at (tangle 9) a) (node_at (tangle 4) a)
tangle-like zero p =
    ((refl, inr (refl, tt), (refl, inr (refl, tt), (refl, inr (refl, tt), (refl, inl refl, tt)))))
tangle-like (suc zero) p = (refl, tt, (refl, tt, tt))
tangle-like (suc (suc a)) p = tt

redact_secret_example :
    (c : Copy) × (redact is_token (tangle 9) 3 [] (ref 0) ≡ some c)
    × (redact is_token (tangle 4) 3 [] (ref 0) ≡ some c)
    × IsCopy is_token (tangle 9) [] c (ref 0)
    × IsCopy is_token (tangle 4) [] c (ref 0)
redact_secret_example =
    redact_secret is_token Public (tangle 9) (tangle 4) tangle-like 3 [] (ref 0) tt (omega arith)
      (omega arith)

abbrev options : LoggerOptions
options = record { level = none; base = none; log_level = some (codes "warn"); redact_keys = none }

abbrev bindings : List (List (Text × Value))
bindings = ((codes "service", string (codes "faucet")) ∷ []) ∷ []

abbrev tokens : Option (List (Text × Value))
tokens = some ((codes "token", plain 3) ∷ [])

emit_lem_example :
    (level_order error
        < level_order (or_else options.level (or_else (parse_log_level options.log_level) info))
      → emit to_lower
          (descend to_lower [] options (create_logger to_lower [] options) bindings).0
          (descend to_lower [] options (create_logger to_lower [] options) bindings).1
          error
          (codes "down")
          tokens
        ≡ [])
    × (level_order (or_else options.level (or_else (parse_log_level options.log_level) info))
          ≤ level_order error
        → Writes
            (is_redact_key to_lower
              (map to_lower (or_else options.redact_keys default_redact_keys)))
            []
            (λ k. latest (or_else tokens []) k (chained bindings (base_field [] options.base) k))
            error
            (codes "down")
            (emit to_lower
              (descend to_lower [] options (create_logger to_lower [] options) bindings).0
              (descend to_lower [] options (create_logger to_lower [] options) bindings).1
              error
              (codes "down")
              tokens))
emit_lem_example =
    emit_lem to_lower [] options bindings error (codes "down") tokens (cc) (λ a h. grind arith)
