-- ===== src/Ui/CopyButton.antt =====
-- The state of `CopyToClipboardButton` of packages/web/ui/src/CopyToClipboardButton.tsx. The markup is
-- left out; the clipboard's promises and the timers reach the state as events.
use predictor_common.Prelude.Text.{Text}
use predictor_common.Prelude.{
  ℕ, ◌+◌, ◌-◌, ◌<◌, ◌≡◌, ◌⊎◌, inl, inr, refl, Bool, true, false, Option, none, some, List, [], ◌∷◌,
  ltb, Bool-cases, if◌then◌else◌, arith,
}

-- `writing` counts the calls of the clipboard that have not settled, `timers` the timers that run.
pub record Button : Type 0 where
  pub copied : Bool
  pub writing : ℕ
  pub timers : ℕ

abbrev pub new_button : Button
new_button = record { copied = false; writing = 0; timers = 0 }

pub data Event : Type 0 where
  clicked : (value : Option Text) → Event
  wrote refused fires : Event

abbrev pub copy_to_clipboard : Option Text → Button → Button
copy_to_clipboard none b = b
copy_to_clipboard (some []) b = b
copy_to_clipboard (some (c ∷ s)) b = record b { writing = b.writing + 1 }

-- A promise settles only while one is pending, and a timer fires only while one runs.
unfoldable pub observe : Button → Event → Button
observe b (clicked value) = copy_to_clipboard value b
observe b wrote =
    if ltb 0 b.writing
    then record { copied = true; writing = b.writing - 1; timers = b.timers + 1 }
    else b
observe b refused = if ltb 0 b.writing then record b { writing = b.writing - 1 } else b
observe b fires = if ltb 0 b.timers then record b { copied = false; timers = b.timers - 1 } else b

unfoldable pub observe_all : Button → List Event → Button
unfolding observe
observe_all b [] = b
observe_all b (e ∷ es) = observe_all (observe b e) es

-- While the tooltip is open, a timer runs that will close it.
abbrev pub IsTimed : Button → Type 0
IsTimed b = (b.copied ≡ false) ⊎ (0 < b.timers)

observe-IsTimed : (b : Button) (e : Event) → IsTimed b → IsTimed (observe b e)
unfolding observe
observe-IsTimed b (clicked none) h = h
observe-IsTimed b (clicked (some [])) h = h
observe-IsTimed b (clicked (some (c ∷ s))) h = h
observe-IsTimed b wrote h = elim (Bool-cases (ltb 0 b.writing)) [
  | inl e ↦ rw e (inr (omega arith))
  | inr e ↦ rw e h
]
observe-IsTimed b refused h = elim (Bool-cases (ltb 0 b.writing)) [
  | inl e ↦ rw e h
  | inr e ↦ rw e h
]
observe-IsTimed b fires h = elim (Bool-cases (ltb 0 b.timers)) [
  | inl e ↦ rw e (inl refl)
  | inr e ↦ rw e h
]

observe_all-IsTimed : (b : Button) (es : List Event) → IsTimed b → IsTimed (observe_all b es)
unfolding observe_all
observe_all-IsTimed b [] h = h
observe_all-IsTimed b (e ∷ es) h = observe_all-IsTimed (observe b e) es (observe-IsTimed b e h)

-- Whatever is clicked, refused or fires, in any order: the tooltip is closed once no timer runs.
pub tooltip_closes : (es : List Event) → IsTimed (observe_all new_button es)
tooltip_closes es = observe_all-IsTimed new_button es (inl refl)
