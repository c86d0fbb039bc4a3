-- ===== src/Network/Explorer.antt =====
-- The addresses of packages/chain/network-constants/src/explorer.ts.
use mathlib.Core.List.{reverse, reverse-reverse}
use predictor_common.Prelude.Text.{Text, codes}
use predictor_common.Prelude.Digits.{decimal, value, value-decimal}
use predictor_common.Prelude.{
  ℕ, ◌≡◌, ◌≢◌, sym, ap, ◌∙◌, inl, inr, ◌==◌, ==_iff, Bool-cases, [], ◌∷◌, ◌++◌,
}
use predictor_common.Network.{
  PredictorNetwork, skip_slashes, define_network, explorer_root, explorer_block_url,
}

append-cancel : (p s t : Text) → p ++ s ≡ p ++ t → s ≡ t
append-cancel [] s t h = h
append-cancel (c ∷ p) s t h = append-cancel p s t (cc h)

-- Blocks with the same address are the same.
pub explorer_block_url-injective :
    (network : PredictorNetwork) (m n : ℕ)
    → explorer_block_url network m ≡ explorer_block_url network n
    → m ≡ n
unfolding explorer_block_url
explorer_block_url-injective network m n h =
    let tail =
      append-cancel (explorer_root network) (codes "/block/" ++ decimal m)
        (codes "/block/" ++ decimal n) h in
    sym (value-decimal m)
    ∙ ap value (append-cancel (codes "/block/") (decimal m) (decimal n) tail)
    ∙ value-decimal n

skip_slashes-head : (s t : Text) → skip_slashes s ≢ b'/' ∷ t
skip_slashes-head [] t = λ h. cc h
skip_slashes-head (c ∷ s) t = elim (Bool-cases (c == b'/')) [
  | inl slash ↦ rw (slash, skip_slashes) (skip_slashes-head s t)
  | inr other ↦
      rw (other, skip_slashes)
        (λ h. let same : c ≡ b'/' = cc h in cc ((==_iff c b'/').1 same, other))
]

-- The base of a defined network does not end with a slash.
pub define_network-base :
    (net : PredictorNetwork) (t : Text) → reverse (define_network net).explorer_base_url ≢ b'/' ∷ t
define_network-base net t = λ h.
    skip_slashes-head (reverse net.explorer_base_url) t
      (sym (reverse-reverse (skip_slashes (reverse net.explorer_base_url))) ∙ h)
