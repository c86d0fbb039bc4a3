-- ===== src/Squid/DecodeEvent/Selection.antt =====
-- Which version `decodeEvent` of packages/indexer/squid-common/src/decodeEvent.ts takes.
use predictor_common.Prelude.Text.{Text}
use predictor_common.Prelude.{
  ℕ, ◌≤◌, ◌≡◌, refl, sym, ap, ◌∙◌, ◌↔◌, ◌⊎◌, inl, inr, Bool, true, false, Bool-cases, Option, none,
  some, List, [], ◌∷◌, All, arith,
}
use predictor_common.Squid.DecodeEvent.{
  Decoded, Event, unsupported, is_flag, as_name, add_keys, first_set, validate, known_versions,
  select, decode_event,
}
use predictor_common.Squid.DecodeEvent.Versions.{
  Among, Among-cons, Named, Among-add_keys, Among-sort_versions, Descending,
  sort_versions-Descending,
}

-- The greatest of the versions whose flag is set, or that there is none.
data Greatest (is_true : Text → Bool) (versions : List ℕ) : Option ℕ → Type 0 where
  nothing_set :
      ((v : ℕ) → Among versions v → is_true (is_flag v) ≡ false) → Greatest is_true versions none
  greatest :
      (v : ℕ)
      → Among versions v
      → is_true (is_flag v) ≡ true
      → ((w : ℕ) → Among versions w → is_true (is_flag w) ≡ true → w ≤ v)
      → Greatest is_true versions (some v)

All-Among : (b : ℕ) (xs : List ℕ) (w : ℕ) → All (λ v. v ≤ b) xs → Among xs w → w ≤ b
All-Among b [] w all h = cc h
All-Among b (x ∷ xs) w (here, all) h = elim ((Among-cons x xs w).0 h) [
  | inl same ↦ omega (arith, here, same)
  | inr later ↦ All-Among b xs w all later
]

Greatest-head :
    (is_true : Text → Bool) (x : ℕ) (xs : List ℕ)
    → is_true (is_flag x) ≡ true
    → All (λ v. v ≤ x) xs
    → Greatest is_true (x ∷ xs) (some x)
Greatest-head is_true x xs flagged le =
    greatest x ((Among-cons x xs x).1 (inl refl)) flagged (λ w h _. elim ((Among-cons x xs w).0 h) [
      | inl same ↦ omega (arith, same)
      | inr later ↦ All-Among x xs w le later
    ])

Greatest-skip :
    (is_true : Text → Bool) (x : ℕ) (xs : List ℕ) (o : Option ℕ)
    → is_true (is_flag x) ≡ false
    → Greatest is_true xs o
    → Greatest is_true (x ∷ xs) o
Greatest-skip is_true x xs _ unset (nothing_set h) = nothing_set (λ v known.
    elim ((Among-cons x xs v).0 known) [
      | inl same ↦ ap (λ u. is_true (is_flag u)) (sym same) ∙ unset
      | inr later ↦ h v later
    ])
Greatest-skip is_true x xs _ unset (greatest v known flagged h) =
    greatest v ((Among-cons x xs v).1 (inr known)) flagged (λ w among set.
      elim ((Among-cons x xs w).0 among) [
        | inl same ↦ cc (ap (λ u. is_true (is_flag u)) same, unset, set)
        | inr later ↦ h w later set
      ])

first_set-Greatest :
    (is_true : Text → Bool) (xs : List ℕ)
    → Descending xs
    → Greatest is_true xs (first_set is_true xs)
unfolding first_set
first_set-Greatest is_true [] h = nothing_set (λ v among. cc among)
first_set-Greatest is_true (x ∷ xs) (le, h) = elim (Bool-cases (is_true (is_flag x))) [
  | inl flagged ↦ rw flagged (Greatest-head is_true x xs flagged le)
  | inr unset ↦ rw unset (Greatest-skip is_true x xs _ unset (first_set-Greatest is_true xs h))
]

-- A version that a key of the instance or a name of its prototype gives.
abbrev pub Known : {P : Type 0} → Decoded P → ℕ → Type 0
Known decoded v = Named decoded.own_keys v ⊎ Named decoded.prototype_names v

known_versions-Known :
    {P : Type 0} (schema : Option (P → Option P)) (decoded : Decoded P) (v : ℕ)
    → Among (known_versions schema decoded) v ↔ Known decoded v
known_versions-Known schema decoded v =
    let own = add_keys [] decoded.own_keys in
    let sorted = Among-sort_versions (add_keys own decoded.prototype_names) v in
    let names = Among-add_keys own decoded.prototype_names v in
    let keys = Among-add_keys [] decoded.own_keys v in
    (
      (λ h. elim (names.0 (sorted.0 h)) [
        | inl a ↦ elim (keys.0 a) [ inl e ↦ cc e | inr named ↦ inl named ]
        | inr named ↦ inr named
      ]),
      elim [
        | inl named ↦ sorted.1 (names.1 (inl (keys.1 (inr named))))
        | inr named ↦ sorted.1 (names.1 (inr named))
      ],
    )

-- What `decodeEvent` comes to, with the version it took.
abbrev pub Takes : {P : Type 0} → Option (P → Option P) → Decoded P → Event P → Type 0
Takes schema decoded event =
    ((v : ℕ) × Known decoded v
      × (decoded.is_true (is_flag v) ≡ true)
      × ((w : ℕ) → Known decoded w → decoded.is_true (is_flag w) ≡ true → w ≤ v)
      × (event ≡ validate schema (decoded.property (as_name v))))
    ⊎ (((v : ℕ) → Known decoded v → decoded.is_true (is_flag v) ≡ false)
        × (event ≡ unsupported (known_versions schema decoded)))

select-Takes :
    {P : Type 0} (schema : Option (P → Option P)) (decoded : Decoded P) (o : Option ℕ)
    → Greatest decoded.is_true (known_versions schema decoded) o
    → Takes schema decoded (select schema decoded o)
select-Takes schema decoded _ (nothing_set h) =
    inr (λ v known. h v ((known_versions-Known schema decoded v).1 known), refl)
select-Takes schema decoded _ (greatest v among flagged h) = inl (
  v,
  (known_versions-Known schema decoded v).0 among,
  flagged,
  (λ w known. h w ((known_versions-Known schema decoded w).1 known)),
  refl,
)

-- For every decoded instance and schema: `decodeEvent` returns the payload, after the schema, of the greatest
-- version whose flag is set among those that the keys of the instance and the names of its prototype
-- give; and where no such flag is set, it throws with the versions that it knows.
pub decode_event_cases :
    {P : Type 0} (schema : Option (P → Option P)) (decoded : Decoded P)
    → Takes schema decoded (decode_event schema decoded)
unfolding decode_event
decode_event_cases schema decoded = select-Takes schema decoded _ (
    first_set-Greatest decoded.is_true (known_versions schema decoded) (sort_versions-Descending _))
