-- ===== src/Prelude/Dict.antt =====
-- Dictionaries as `Map` and plain records keep them, in the order of insertion: a write to a present
-- key keeps its place, a new key goes to the end.
use mathlib.Core.Path.{◌≡◌, refl, ◌∙◌}
use mathlib.Core.Logic.{◌↔◌, ◌⊎◌, inl, inr}
use mathlib.Core.Bool.{Bool, true}
use mathlib.Core.Option.{Option, none, some}
use mathlib.Core.List.{List, [], ◌∷◌}
use native.Mathlib.Omega.{arith}
use Prim.Native.Nat.{ℕ}
use predictor_common.Prelude.Tests.{Bool-cases, if◌then◌else◌, ◌==◌, ==_iff}
use predictor_common.Prelude.Text.{Text, text_eq, text_eq_iff}

-- Types whose values serve as keys.
pub record Key {ℓ} (K : Type ℓ) : Type ℓ where
  pub same : K → K → Bool
  pub same_iff : (j k : K) → (same j k ≡ true) ↔ (j ≡ k)

instance abbrev pub number_key : Key ℕ
number_key = record { same = λ a b. a == b; same_iff = ==_iff }

instance abbrev pub text_key : Key Text
text_key = record { same = text_eq; same_iff = text_eq_iff }

module _ {ℓ κ} {K : Type ℓ} {V : Type κ} ⦃key : Key K⦄ where
  abbrev pub get : List (K × V) → K → Option V
  get [] k = none
  get ((j, v) ∷ rest) k = if key.same j k then some v else get rest k

  abbrev pub put : List (K × V) → K → V → List (K × V)
  put [] k v = (k, v) ∷ []
  put ((j, w) ∷ rest) k v = if key.same j k then (j, v) ∷ rest else (j, w) ∷ put rest k v

  abbrev pub remove : List (K × V) → K → List (K × V)
  remove [] k = []
  remove ((j, w) ∷ rest) k = if key.same j k then remove rest k else (j, w) ∷ remove rest k

  pub get-put :
      (d : List (K × V)) (k : K) (v : V) (j : K)
      → get (put d k v) j ≡ (if key.same k j then some v else get d j)
  get-put [] k v j = refl
  get-put ((i, w) ∷ rest) k v j =
      ground (arith, get-put rest k v j, key.same_iff i j, key.same_iff i k, key.same_iff k j)

  pub get-remove :
      (d : List (K × V)) (k j : K) → get (remove d k) j ≡ (if key.same k j then none else get d j)
  get-remove [] k j = ground arith
  get-remove ((i, w) ∷ rest) k j =
      ground (arith, get-remove rest k j, key.same_iff i j, key.same_iff i k, key.same_iff k j)

  pub get-put_keeps :
      (d : List (K × V)) (k : K) (v : V) (n : K) (e : V)
      → get d k ≡ none
      → get d n ≡ some e
      → get (put d k v) n ≡ some e
  get-put_keeps d k v n e fresh h = elim (Bool-cases (key.same k n)) [
    | inl same ↦ grind (arith, key.same_iff k n)
    | inr other ↦ get-put d k v n ∙ rw other h
  ]

  pub get-put_cases :
      (d : List (K × V)) (k : K) (v : V) (n : K) (e : V)
      → get (put d k v) n ≡ some e
      → (get d n ≡ some e) ⊎ ((k ≡ n) × (v ≡ e))
  get-put_cases d k v n e h = elim (Bool-cases (key.same k n)) [
    | inl same ↦ inr ((key.same_iff k n).0 same, grind (arith, get-put d k v n))
    | inr other ↦ inl grind (arith, get-put d k v n)
  ]
