-- ===== src/Squid/ChainCoord/RoundTrip.antt =====
-- Making and parsing the ids of packages/indexer/squid-common/src/chainCoord.ts.
use mathlib.Core.List.{reverse, reverse-append}
use predictor_common.Prelude.Text.{Text, starts_with, ends_with, split}
use predictor_common.Prelude.Digits.{
  decimal, decimal-IsDigit, value-decimal, decimal-ne-nil, is_digit, IsDigit,
}
use predictor_common.Prelude.{
  ℕ, ◌+◌, ◌-◌, ◌≡◌, ◌≢◌, refl, true, Option, none, some, [], ◌∷◌, ◌++◌, length, length-append,
  take-append, all, All, ==_refl, ne→==, arith,
}
use predictor_common.Squid.ChainCoord.{
  ChainCoord, dash, prefix, chain_coord_id_make, is_decimal, strip_suffix, coord, of_parts,
  chain_coord_transform, parse,
}

abbrev pub Lacks : ℕ → Text → Type 0
Lacks x s = All (λ c. c ≢ x) s

split_lacking : (x : ℕ) (s : Text) → Lacks x s → split x s ≡ s ∷ []
split_lacking x [] h = refl
split_lacking x (c ∷ s) (h, hs) = rw (ne→== c x h, split, split_lacking x s hs)

split-append : (x : ℕ) (s t : Text) → Lacks x s → split x (s ++ (x ∷ t)) ≡ s ∷ split x t
split-append x [] t h = rw (==_refl x, split)
split-append x (c ∷ s) t (h, hs) = rw (ne→== c x h, split, split-append x s t hs)

digits-Lacks : (s : Text) → All IsDigit s → Lacks dash s
digits-Lacks [] h = tt
digits-Lacks (c ∷ s) ((low, high), hs) = ((λ e. omega arith), digits-Lacks s hs)

all-is_digit : (s : Text) → All IsDigit s → all is_digit s ≡ true
all-is_digit [] h = refl
all-is_digit (c ∷ s) ((low, high), hs) = ground (arith, all-is_digit s hs)

is_decimal_of_digits : (s : Text) → s ≢ [] → All IsDigit s → is_decimal s ≡ true
is_decimal_of_digits [] ne h = absurd (ne refl)
is_decimal_of_digits (c ∷ s) ne (h, hs) = ground (arith, all-is_digit s hs)

decimal-Lacks : (n : ℕ) → Lacks dash (decimal n)
decimal-Lacks n = digits-Lacks (decimal n) (decimal-IsDigit n)

is_decimal-decimal : (n : ℕ) → is_decimal (decimal n) ≡ true
is_decimal-decimal n = is_decimal_of_digits (decimal n) (decimal-ne-nil n) (decimal-IsDigit n)

split-prefix :
    (c : ChainCoord)
    → split dash (prefix c)
      ≡ decimal c.block_number ∷ decimal c.extrinsic_index ∷ decimal c.event_index ∷ []
split-prefix c = rw (
  split-append dash (decimal c.block_number) _ (decimal-Lacks c.block_number),
  split-append dash (decimal c.extrinsic_index) _ (decimal-Lacks c.extrinsic_index),
  split_lacking dash (decimal c.event_index) (decimal-Lacks c.event_index),
)

of_parts-decimal :
    (c : ChainCoord)
    → of_parts (decimal c.block_number ∷ decimal c.extrinsic_index ∷ decimal c.event_index ∷ [])
      ≡ coord c
of_parts-decimal c = rw (
  is_decimal-decimal c.block_number,
  is_decimal-decimal c.extrinsic_index,
  is_decimal-decimal c.event_index,
  value-decimal c.block_number,
  value-decimal c.extrinsic_index,
  value-decimal c.event_index,
)

starts_with-append : (p s : Text) → starts_with (p ++ s) p ≡ true
starts_with-append [] [] = refl
starts_with-append [] (c ∷ s) = refl
starts_with-append (c ∷ p) s = rw (==_refl c) (starts_with-append p s)

ends_with-append : (s p : Text) → ends_with (s ++ p) p ≡ true
ends_with-append s p = rw (reverse-append s p) (starts_with-append (reverse p) (reverse s))

strip_suffix-make :
    (c : ChainCoord) (suffix : Option Text)
    → strip_suffix suffix (chain_coord_id_make c suffix) ≡ some (prefix c)
unfolding strip_suffix chain_coord_id_make
strip_suffix-make c none = refl
strip_suffix-make c (some suffix) =
    let e : length (prefix c ++ (dash ∷ suffix)) - (length suffix + 1) ≡ length (prefix c) =
      omega (arith, length-append (prefix c) (dash ∷ suffix)) in
    rw (ends_with-append (prefix c) (dash ∷ suffix), e, take-append (prefix c) (dash ∷ suffix))

transform-make :
    (c : ChainCoord) (suffix : Option Text)
    → chain_coord_transform suffix (chain_coord_id_make c suffix) ≡ coord c
unfolding chain_coord_transform
transform-make c suffix =
    rw (strip_suffix-make c suffix, chain_coord_transform, split-prefix c, of_parts-decimal c)

-- Every id is parsed, by the family with its suffix, to the coordinates that it was made from; so two
-- rows with the same id have the same coordinates.
pub parse-chain_coord_id_make :
    (c : ChainCoord) (suffix : Option Text) → parse suffix (chain_coord_id_make c suffix) ≡ some c
unfolding parse
parse-chain_coord_id_make c suffix = rw (transform-make c suffix, parse)
