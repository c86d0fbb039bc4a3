-- ===== src/Logger/Levels/Lines.antt =====
-- What a logger of packages/service/logger/src/index.ts writes, and its children.
use mathlib.Core.Path.{subst}
use predictor_common.Prelude.Text.{Text}
use predictor_common.Prelude.Dict.{text_key}
use predictor_common.Prelude.{
  ℕ, ◌≤◌, ◌<◌, ◌≡◌, ◌≢◌, refl, ap, ◌∙◌, Option, none, some, List, [], ◌∷◌, map, length, lt→ltb,
  le→ltb,
}
use predictor_common.Logger.Words.{is_redact_key}
use predictor_common.Logger.Redaction.{Value, fields, Heap, node_at}
use predictor_common.Logger.Redaction.Termination.{EntriesAreCopies}
use predictor_common.Logger.Levels.{
  LogLevel, info, level_order, parse_log_level, default_redact_keys, LoggerOptions, Logger, or_else,
  spread, copies_of, stream_of, copied_header, line_of, create_logger, child, merged, output, emit,
}
use predictor_common.Logger.Levels.Fields.{
  latest, latest-copies_of, get-spread, base_field, chained, HasFields, IsRecord, Extends,
  Extends-refl, Extends-alloc, HasFields-append, merge-HasFields, base-HasFields,
}
use predictor_common.Logger.Levels.Shown.{header_copy, Writes, redact-IsRecord, stream_of_iff}

module _ (to_lower_case : Text → Text) (heap : Heap) (options : LoggerOptions) where
  -- A logger made of these options on this heap, itself or by way of children, whose record binds
  -- each key so.
  abbrev pub IsLogger : (Text → Option Value) → Heap × Logger → Type 0
  IsLogger bound (heap', l) =
      (l.level ≡ or_else options.level (or_else (parse_log_level options.log_level) info))
      × (l.options.redact_keys ≡ options.redact_keys)
      × (l.redact_keys ≡ map to_lower_case (or_else options.redact_keys default_redact_keys))
      × Extends heap heap'
      × HasFields heap' l.base bound

  -- One child after another.
  abbrev pub descend : Heap × Logger → List (List (Text × Value)) → Heap × Logger
  descend l [] = l
  descend (heap', l) (b ∷ rest) = descend (child to_lower_case heap' l b) rest

  child-IsLogger :
      (bound : Text → Option Value) (l : Heap × Logger) (b : List (Text × Value))
      → IsLogger bound l
      → IsLogger (λ k. latest b k (bound k)) (child to_lower_case l.0 l.1 b)
  unfolding child create_logger
  child-IsLogger bound (heap', l) b (level, policy, keys, above, base) =
      let merge = merge-HasFields heap' l.base b bound base in
      (
        level,
        policy,
        ap (λ k. map to_lower_case (or_else k default_redact_keys)) policy,
        Extends-alloc heap _ [] (Extends-alloc heap heap' _ above),
        HasFields-append _ (fields [] ∷ []) (length heap') (λ k. latest b k (bound k)) merge,
      )

  descend-IsLogger :
      (bound : Text → Option Value) (l : Heap × Logger) (bindings : List (List (Text × Value)))
      → IsLogger bound l
      → IsLogger (chained bindings bound) (descend l bindings)
  descend-IsLogger bound l [] h = h
  descend-IsLogger bound (heap', l) (b ∷ rest) h =
      descend-IsLogger (λ k. latest b k (bound k)) (child to_lower_case heap' l b) rest
        (child-IsLogger bound (heap', l) b h)

  create_logger-IsLogger :
      ((a : ℕ) → options.base ≡ some a → IsRecord heap a)
      → IsLogger (base_field heap options.base) (create_logger to_lower_case heap options)
  unfolding create_logger
  create_logger-IsLogger base = (
    refl,
    refl,
    refl,
    Extends-alloc heap heap [] (Extends-refl heap),
    base-HasFields heap options.base base,
  )

  merged-HasFields :
      (heap' : Heap) (l : Logger) (extra : Option (List (Text × Value)))
      (bound : Text → Option Value)
      → HasFields heap' l.base bound
      → HasFields
          (merged to_lower_case heap' l extra).0
          (merged to_lower_case heap' l extra).1
          (λ k. latest (or_else extra []) k (bound k))
  merged-HasFields heap' l none bound h = h
  merged-HasFields heap' l (some b) bound h = merge-HasFields heap' l.base b bound h

  merged-Extends :
      (heap' : Heap) (l : Logger) (extra : Option (List (Text × Value)))
      → Extends heap heap'
      → Extends heap (merged to_lower_case heap' l extra).0
  merged-Extends heap' l none h = h
  merged-Extends heap' l (some b) h = Extends-alloc heap heap' _ h

  output-Writes :
      (heap' : Heap) (l : Logger) (at : LogLevel) (msg : Text) (a : ℕ) (keys : List Text)
      (bound : Text → Option Value)
      → keys ≢ []
      → Extends heap heap'
      → HasFields heap' a bound
      → Writes
          (is_redact_key to_lower_case keys)
          heap
          bound
          at
          msg
          (output to_lower_case heap' l at msg a keys)
  output-Writes heap' l at msg a [] bound some_key above h = absurd (some_key refl)
  output-Writes heap' l at msg a (k ∷ keys) bound some_key (more, above) (fs, record_at, binds) =
      let hidden = is_redact_key to_lower_case (k ∷ keys) in
      let (es, e, are) = redact-IsRecord hidden heap' a fs record_at in
      (
        stream_of at,
        spread (copied_header at msg) (copies_of es),
        more,
        a,
        fs,
        es,
        ap (line_of at msg) e,
        stream_of_iff at,
        λ j.
            get-spread (copied_header at msg) (copies_of es) j
            ∙ latest-copies_of es j (header_copy at msg j),
        subst (λ x. node_at x a ≡ fields fs) above record_at,
        binds,
        subst (λ x. EntriesAreCopies hidden x (a ∷ []) es fs) above are,
      )

  emit-IsLogger :
      (bound : Text → Option Value) (l : Heap × Logger) (at : LogLevel) (msg : Text)
      (extra : Option (List (Text × Value)))
      → map to_lower_case (or_else options.redact_keys default_redact_keys) ≢ []
      → IsLogger bound l
      → (level_order at
            < level_order (or_else options.level (or_else (parse_log_level options.log_level) info))
          → emit to_lower_case l.0 l.1 at msg extra ≡ [])
        × (level_order (or_else options.level (or_else (parse_log_level options.log_level) info))
              ≤ level_order at
            → Writes
                (is_redact_key to_lower_case
                  (map to_lower_case (or_else options.redact_keys default_redact_keys)))
                heap
                (λ k. latest (or_else extra []) k (bound k))
                at
                msg
                (emit to_lower_case l.0 l.1 at msg extra))
  unfolding emit
  emit-IsLogger bound (heap', l) at msg extra some_key (level, policy, keys, above, base) = (
    λ below. rw (lt→ltb (level_order at) (level_order l.level) (rw level below), emit) refl,
    λ enough.
        rw (le→ltb (level_order at) (level_order l.level) (rw level enough), emit, keys)
          (output-Writes (merged to_lower_case heap' l extra).0 l at msg
            (merged to_lower_case heap' l extra).1
            (map to_lower_case (or_else options.redact_keys default_redact_keys))
            (λ k. latest (or_else extra []) k (bound k)) some_key
            (merged-Extends heap' l extra above) (merged-HasFields heap' l extra bound base)),
  )

-- Take a logger made of options whose redacted keys are not empty and whose base, if one is given, is a
-- record, or any of its children in turn. Under the configured level, or info where none is
-- understood, it writes nothing. From that level on it writes one line, to stderr for a warning or an
-- error and to stdout otherwise: the level and the message, overwritten by the copies of the entries of a
-- record, which lies on an extension of the heap and binds a key as the fields of the call do, else
-- the bindings of the last child that has it, else the base. An entry of that record, or of any record
-- copied below it, that stands under one of the root's redacted keys is the marker.
pub emit_lem :
    (to_lower_case : Text → Text) (heap : Heap) (options : LoggerOptions)
    (bindings : List (List (Text × Value))) (at : LogLevel) (msg : Text)
    (extra : Option (List (Text × Value)))
    → map to_lower_case (or_else options.redact_keys default_redact_keys) ≢ []
    → ((a : ℕ) → options.base ≡ some a → IsRecord heap a)
    → (level_order at
          < level_order (or_else options.level (or_else (parse_log_level options.log_level) info))
        → emit to_lower_case
            (descend to_lower_case heap options
              (create_logger to_lower_case heap options)
              bindings).0
            (descend to_lower_case heap options
              (create_logger to_lower_case heap options)
              bindings).1
            at
            msg
            extra
          ≡ [])
      × (level_order (or_else options.level (or_else (parse_log_level options.log_level) info))
            ≤ level_order at
          → Writes
              (is_redact_key to_lower_case
                (map to_lower_case (or_else options.redact_keys default_redact_keys)))
              heap
              (λ k. latest (or_else extra []) k (chained bindings (base_field heap options.base) k))
              at
              msg
              (emit to_lower_case
                (descend to_lower_case heap options
                  (create_logger to_lower_case heap options)
                  bindings).0
                (descend to_lower_case heap options
                  (create_logger to_lower_case heap options)
                  bindings).1
                at
                msg
                extra))
emit_lem to_lower_case heap options bindings at msg extra some_key base =
    emit-IsLogger to_lower_case heap options (chained bindings (base_field heap options.base))
      (descend to_lower_case heap options (create_logger to_lower_case heap options) bindings) at
      msg extra some_key
      (descend-IsLogger to_lower_case heap options (base_field heap options.base)
        (create_logger to_lower_case heap options) bindings
        (create_logger-IsLogger to_lower_case heap options base))
