-- ===== src/Logger/Levels/Shown.antt =====
-- A line of a logger of packages/service/logger/src/index.ts, described by its keys.
use mathlib.Core.Path.{subst}
use predictor_common.Prelude.Text.{Text, codes, text_eq}
use predictor_common.Prelude.Dict.{get, text_key}
use predictor_common.Prelude.{
  ℕ, suc, ◌≡◌, ◌↔◌, ◌⊎◌, refl, ap, ◌∙◌, inl, inr, Bool, Option, none, some, List, [], ◌∷◌, ◌++◌,
  length, if◌then◌else◌, arith,
}
use predictor_common.Logger.Redaction.{
  Value, plain, string, ref, fields, Heap, node_at, Copy, Entries, kept, redacted, circular, items,
  entries, redact,
}
use predictor_common.Logger.Redaction.Termination.{IsCopy, EntriesAreCopies, redact-IsCopy}
use predictor_common.Logger.Levels.{
  LogLevel, debug, info, warn, error, level_name, Stream, stderr, Written, copied, stream_of,
}
use predictor_common.Logger.Levels.Fields.{latest_entry}

-- What the level and the message are written as.
abbrev pub header_copy : LogLevel → Text → Text → Option Copy
header_copy at msg k =
    if text_eq (codes "level") k
    then some (kept (string (level_name at)))
    else if text_eq (codes "msg") k
    then some (kept (string msg))
    else none

-- What is written for the record that binds each key so, which lies on an extension of the heap: to
-- stderr for a warning or an error and to stdout otherwise, the level and the message, overwritten
-- by the record's copy.
abbrev pub Writes :
    (Text → Bool) → Heap → (Text → Option Value) → LogLevel → Text → List Written → Type 0
Writes is_redacted heap bound at msg written =
    (s : Stream) × (shown : List (Text × Copy)) × (more : Heap) × (a : ℕ) × (fs : List
      (Text × Value))
    × (es : Entries) × (written ≡ record { stream = s; line = copied shown } ∷ [])
    × ((s ≡ stderr) ↔ ((at ≡ warn) ⊎ (at ≡ error)))
    × ((k : Text) → get shown k ≡ latest_entry es k (header_copy at msg k))
    × (node_at (heap ++ more) a ≡ fields fs)
    × ((k : Text) → get fs k ≡ bound k)
    × EntriesAreCopies is_redacted (heap ++ more) (a ∷ []) es fs

module _ (is_redacted : Text → Bool) (heap : Heap) (a : ℕ) (fs : List (Text × Value))
    (at : node_at heap a ≡ fields fs) where
  pub redact-IsRecord :
      (es : Entries) × (redact is_redacted heap (suc (length heap)) [] (ref a) ≡ some (entries es))
      × EntriesAreCopies is_redacted heap (a ∷ []) es fs
  redact-IsRecord =
      let (c, e, is) =
        redact-IsCopy is_redacted heap (suc (length heap)) [] (ref a) (omega arith) in
      let (es, same, are) = of_record c is in (es, e ∙ ap some same, are)
    where
      of_record :
          (c : Copy)
          → IsCopy is_redacted heap [] c (ref a)
          → (es : Entries) × (c ≡ entries es) × EntriesAreCopies is_redacted heap (a ∷ []) es fs
      of_record (kept (plain n)) e = absurd (cc e)
      of_record (kept (string t)) e = absurd (cc e)
      of_record (kept (ref b)) (e, passed) = absurd (cc (e, passed, at))
      of_record redacted e = absurd e
      of_record circular (b, e, some_node, again) = absurd (cc again)
      of_record (items cs) (b, vs, e, array_at, fresh, more) = absurd (cc (array_at, e, at))
      of_record (entries es) (b, gs, e, fields_at, fresh, are) =
          let here : b ≡ a = cc e in
          let same : gs ≡ fs = cc (e, fields_at, at) in
          (
            es,
            refl,
            subst (λ x. EntriesAreCopies is_redacted heap (x ∷ []) es fs) here
                (subst (EntriesAreCopies is_redacted heap (b ∷ []) es) same are),
          )

pub stream_of_iff : (at : LogLevel) → (stream_of at ≡ stderr) ↔ ((at ≡ warn) ⊎ (at ≡ error))
stream_of_iff debug =
    (λ e. absurd (cc e), λ h. elim h [ inl e ↦ absurd (cc e) | inr e ↦ absurd (cc e) ])
stream_of_iff info =
    (λ e. absurd (cc e), λ h. elim h [ inl e ↦ absurd (cc e) | inr e ↦ absurd (cc e) ])
stream_of_iff warn = (λ e. inl refl, λ h. refl)
stream_of_iff error = (λ e. inr refl, λ h. refl)
