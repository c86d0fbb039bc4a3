-- ===== src/Ui/DateLocale.antt =====
-- packages/web/ui/src/dateLocale.ts. The lower case of a text is a parameter; the two names that every
-- object inherits, `constructor` and `__proto__`, are no language tags and are left out.
use predictor_common.Prelude.Text.{Text, codes, trim, split}
use predictor_common.Prelude.Dict.{get, text_key}
use predictor_common.Prelude.{Option, none, some, List, [], ◌∷◌}

pub data Locale : Type 0 where
  bg de en_gb en_us es fr it pl pt_br ru : Locale

abbrev pub locale_by_tag : List (Text × Locale)
locale_by_tag =
    (codes "en", en_us)
    ∷ (codes "en-us", en_us)
    ∷ (codes "en-gb", en_gb)
    ∷ (codes "bg", bg)
    ∷ (codes "bg-bg", bg)
    ∷ (codes "de", de)
    ∷ (codes "de-de", de)
    ∷ (codes "de-at", de)
    ∷ (codes "fr", fr)
    ∷ (codes "fr-fr", fr)
    ∷ (codes "es", es)
    ∷ (codes "es-es", es)
    ∷ (codes "it", it)
    ∷ (codes "it-it", it)
    ∷ (codes "pl", pl)
    ∷ (codes "pl-pl", pl)
    ∷ (codes "pt-br", pt_br)
    ∷ (codes "ru", ru)
    ∷ (codes "ru-ru", ru)
    ∷ []

abbrev pub default_locale : Locale
default_locale = en_us

abbrev pub first_of : List Text → Text
first_of [] = []
first_of (part ∷ parts) = part

abbrev pub or_locale : Option Locale → Locale → Locale
or_locale none fallback = fallback
or_locale (some locale) fallback = locale

module _ (to_lower : Text → Text) where
  unfoldable pub get_date_fns_locale_for_language_tag : Text → Locale
  get_date_fns_locale_for_language_tag language_tag =
      let normalized = to_lower (trim language_tag) in
      let primary = first_of (split b'-' normalized) in
      or_locale (get locale_by_tag normalized)
        (or_locale (get locale_by_tag primary) default_locale)

  abbrev pub or_default : Option Text → Locale
  or_default none = default_locale
  or_default (some []) = default_locale
  or_default (some (c ∷ s)) = get_date_fns_locale_for_language_tag (c ∷ s)

  -- The languages of the navigator and of the document, `none` where there is none.
  unfoldable pub get_browser_date_fns_locale : Option Text → Option Text → Locale
  get_browser_date_fns_locale none document = or_default document
  get_browser_date_fns_locale (some []) document = or_default document
  get_browser_date_fns_locale (some (c ∷ s)) document = get_date_fns_locale_for_language_tag (c ∷ s)
