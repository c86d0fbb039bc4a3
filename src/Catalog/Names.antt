-- ===== src/Catalog/Names.antt =====
-- The names that scripts/check-catalog.mjs reads from the catalog's block.
use predictor_common.Prelude.Text.{Text, codes, split, trim_start, is_space, has}
use predictor_common.Prelude.{
  ℕ, ◌≡◌, ◌∙◌, refl, sym, ap, Bool, true, false, not, ◌&&◌, ◌||◌, ◌==◌, Option, none, some, List,
  [], ◌∷◌, ◌++◌, map, append_assoc, append-nil, all, All, and_iff, arith,
}
use predictor_common.Catalog.{
  is_catalog_line, after_start, is_dedent, is_ignored, span, colon_follows, quoted, is_bare, bare,
  entry_name, or_else, block_names, names_after, catalog_names,
}

-- A key as it is written: bare, or in single or double quotes; its name has a first character.
pub data Key : Type 0 where
  plain single double : (c : ℕ) (s : Text) → Key

abbrev pub name_of : Key → Text
name_of (plain c s) = c ∷ s
name_of (single c s) = c ∷ s
name_of (double c s) = c ∷ s

abbrev pub is_not : ℕ → ℕ → Bool
is_not q c = not (c == q)

-- A bare name has no colon and no space, and does not start as a comment or a quoted name does.
abbrev pub is_plain_start : ℕ → Bool
is_plain_start c = is_not 35 c && (is_not 39 c && is_not 34 c)

abbrev pub IsWritten : Key → Type 0
IsWritten (plain c s) = (is_plain_start c ≡ true) × (all is_bare (c ∷ s) ≡ true)
IsWritten (single c s) = all (is_not 39) (c ∷ s) ≡ true
IsWritten (double c s) = all (is_not 34) (c ∷ s) ≡ true

-- The key, and what follows it.
abbrev pub key_text : Key → Text → Text
key_text (plain c s) rest = (c ∷ s) ++ rest
key_text (single c s) rest = 39 ∷ ((c ∷ s) ++ (39 ∷ rest))
key_text (double c s) rest = 34 ∷ ((c ∷ s) ++ (34 ∷ rest))

-- A line of the block: two spaces, the key, a colon and the version.
abbrev pub line_of : Key × Text → Text
line_of (key, version) = 32 ∷ 32 ∷ key_text key (58 ∷ 32 ∷ version)

span-append :
    (p : ℕ → Bool) (s : Text) (c : ℕ) (t : Text)
    → all p s ≡ true
    → p c ≡ false
    → span p (s ++ (c ∷ t)) ≡ (s, c ∷ t)
span-append p [] c t h e = rw e refl
span-append p (d ∷ s) c t h e =
    let (first, rest) = (and_iff (p d) (all p s)).0 h in rw (first, span-append p s c t rest e) refl

quoted-name :
    (q c : ℕ) (s t : Text)
    → all (is_not q) (c ∷ s) ≡ true
    → colon_follows t ≡ true
    → quoted q (q ∷ ((c ∷ s) ++ (q ∷ t))) ≡ some (c ∷ s)
quoted-name q c s t h k =
    let opens : (q == q) ≡ true = ground arith in
    let stops : is_not q q ≡ false = ground arith in
    rw (opens, span-append (is_not q) (c ∷ s) q t h stops, opens, k) refl

bare-name :
    (c : ℕ) (s t : Text) → all is_bare (c ∷ s) ≡ true → bare ((c ∷ s) ++ (58 ∷ t)) ≡ some (c ∷ s)
bare-name c s t h = rw (span-append is_bare (c ∷ s) 58 t h refl) refl

quoted-other : (q c : ℕ) (t : Text) → is_not q c ≡ true → quoted q (c ∷ t) ≡ none
quoted-other q c t h = let other : (c == q) ≡ false = ground arith in rw other refl

-- What a key is read as.
abbrev entry_of : Text → Option Text
entry_of key = or_else (quoted 39 key) (or_else (quoted 34 key) (bare key))

entry_of-quoted : (key name : Text) → quoted 39 key ≡ some name → entry_of key ≡ some name
entry_of-quoted key name h = ap (λ o. or_else o (or_else (quoted 34 key) (bare key))) h

entry_of-double :
    (key name : Text) → quoted 39 key ≡ none → quoted 34 key ≡ some name → entry_of key ≡ some name
entry_of-double key name h k =
    ap (λ o. or_else o (or_else (quoted 34 key) (bare key))) h ∙ ap (λ o. or_else o (bare key)) k

entry_of-bare : (key : Text) → quoted 39 key ≡ none → quoted 34 key ≡ none → entry_of key ≡ bare key
entry_of-bare key h k =
    ap (λ o. or_else o (or_else (quoted 34 key) (bare key))) h ∙ ap (λ o. or_else o (bare key)) k

not_or : (a b : Bool) → not (a || b) ≡ true → (a ≡ false) × (b ≡ false)
not_or true b h = absurd (cc h)
not_or false true h = absurd (cc h)
not_or false false h = (refl, refl)

is_bare-not_space : (c : ℕ) → is_bare c ≡ true → is_space c ≡ false
is_bare-not_space c h = (not_or (c == 58) (is_space c) h).1

entry_name-line :
    (key : Key) (version : Text)
    → IsWritten key
    → entry_name (line_of (key, version)) ≡ some (name_of key)
unfolding entry_name
entry_name-line (plain c s) version (start, h) =
    let (comment, quotes) = (and_iff (is_not 35 c) (is_not 39 c && is_not 34 c)).0 start in
    let (quote, double_quote) = (and_iff (is_not 39 c) (is_not 34 c)).0 quotes in
    let first = ((and_iff (is_bare c) (all is_bare s)).0 h).0 in
    let rest : Text = s ++ (58 ∷ 32 ∷ version) in
    let key : trim_start (c ∷ rest) ≡ c ∷ rest = ground (arith, is_bare-not_space c first) in
    ap entry_of key
    ∙ entry_of-bare (c ∷ rest) (quoted-other 39 c rest quote) (quoted-other 34 c rest double_quote)
    ∙ bare-name c s (32 ∷ version) h
entry_name-line (single c s) version h =
    entry_of-quoted (key_text (single c s) (58 ∷ 32 ∷ version)) (c ∷ s)
      (quoted-name 39 c s (58 ∷ 32 ∷ version) h refl)
entry_name-line (double c s) version h =
    entry_of-double (key_text (double c s) (58 ∷ 32 ∷ version)) (c ∷ s) refl
      (quoted-name 34 c s (58 ∷ 32 ∷ version) h refl)

is_ignored-line :
    (key : Key) (version : Text) → IsWritten key → is_ignored (line_of (key, version)) ≡ false
is_ignored-line (plain c s) version (start, h) =
    let first = ((and_iff (is_bare c) (all is_bare s)).0 h).0 in
    let comment = ((and_iff (is_not 35 c) (is_not 39 c && is_not 34 c)).0 start).0 in
    let other : (c == 35) ≡ false = ground (arith, comment) in rw (is_bare-not_space c first) other
is_ignored-line (single c s) version h = refl
is_ignored-line (double c s) version h = refl

-- No name stands among the first ones, nor twice.
abbrev pub IsNew : List Text → List (Key × Text) → Type 0
IsNew names [] = Unit
IsNew names ((key, version) ∷ entries) =
    (has names (name_of key) ≡ false) × IsNew (names ++ (name_of key ∷ [])) entries

-- The end of the block: of the text, or a line that is not indented.
abbrev pub EndsBlock : List Text → Type 0
EndsBlock [] = Unit
EndsBlock (line ∷ lines) = is_dedent line ≡ true

block_names-end : (names lines : List Text) → EndsBlock lines → block_names names lines ≡ names
unfolding block_names
block_names-end names [] h = refl
block_names-end names (line ∷ lines) h = ground arith

block_names-lines :
    (names after : List Text) (entries : List (Key × Text))
    → All (λ entry. IsWritten entry.0) entries
    → IsNew names entries
    → EndsBlock after
    → block_names names (map line_of entries ++ after)
      ≡ names ++ map (λ entry. name_of entry.0) entries
unfolding block_names
block_names-lines names after [] written new ends =
    block_names-end names after ends ∙ sym (append-nil names)
block_names-lines names after ((key, version) ∷ entries) (w, written) (fresh, new) ends =
    rw (is_ignored-line key version w, entry_name-line key version w, fresh)
      (block_names-lines (names ++ (name_of key ∷ [])) after entries written new ends
        ∙ append_assoc names (name_of key ∷ []) (map (λ entry. name_of entry.0) entries))

after_start-block :
    (before lines : List Text)
    → All (λ line. is_catalog_line line ≡ false) before
    → after_start (before ++ (codes "catalog:" ∷ lines)) ≡ some lines
after_start-block [] lines h = refl
after_start-block (line ∷ before) lines (h, rest) =
    ground (arith, after_start-block before lines rest)

-- Where the lines of the text are any that do not start the catalog, the line `catalog:`, one line for
-- each key with its version, and the end or a line that is not indented with any lines after it: the
-- names that are read are those of the keys, in their order. A key is a name in single or double
-- quotes without that quote in it, or a bare one that starts with no quote and no `#` and has no
-- colon and no space; no name is empty or stands twice.
pub catalog_names-lines :
    (workspace : Text) (before after : List Text) (entries : List (Key × Text))
    → split 10 workspace ≡ before ++ (codes "catalog:" ∷ (map line_of entries ++ after))
    → All (λ line. is_catalog_line line ≡ false) before
    → All (λ entry. IsWritten entry.0) entries
    → IsNew [] entries
    → EndsBlock after
    → catalog_names workspace ≡ map (λ entry. name_of entry.0) entries
unfolding catalog_names
catalog_names-lines workspace before after entries lines others written new ends =
    ap (λ l. names_after (after_start l)) lines
    ∙ ap names_after (after_start-block before (map line_of entries ++ after) others)
    ∙ block_names-lines [] after entries written new ends
