-- ===== src/Squid/Account/Upsert.antt =====
-- What `getOrCreateAccount` of packages/indexer/squid-common/src/account.ts leaves in the store.
use mathlib.Core.Path.{subst}
use predictor_common.Prelude.Text.{Text, text_eq, text_eq_iff}
use predictor_common.Prelude.Dict.{get, get-put, text_key}
use predictor_common.Prelude.{
  ℕ, ◌≡◌, refl, sym, ap, ◌∙◌, inl, inr, false, Option, none, some, List, [], ◌∷◌, ltb, le→ltb,
  Option-cases, Bool-cases, if◌then◌else◌, arith,
}
use predictor_common.Squid.Account.{
  Account, AccountStore, Batch, load, advance, get_or_create_account, sight_all,
}

-- The latest of some block and those at which an id is named.
abbrev pub latest : Text → ℕ → List (Text × ℕ) → ℕ
latest id block [] = block
latest id block ((j, b) ∷ rest) =
    if text_eq j id then latest id (if ltb block b then b else block) rest else latest id block rest

-- The row of an id after a batch: what it was before, or new at the first sighting, seen last at the
-- latest sighting.
abbrev pub row_after : Text → Option Account → List (Text × ℕ) → Option Account
row_after id (some acc) sightings =
    some (record acc { last_seen_at_block = latest id acc.last_seen_at_block sightings })
row_after id none [] = none
row_after id none ((j, b) ∷ rest) =
    if text_eq j id
    then some (record { id = id; first_seen_at_block = b; last_seen_at_block = latest id b rest })
    else row_after id none rest

row_after-nil : (id : Text) (old : Option Account) → row_after id old [] ≡ old
row_after-nil id none = refl
row_after-nil id (some acc) = refl

-- The account that a sighting starts from.
abbrev base : Text → ℕ → Option Account → Account
base id block (some acc) = acc
base id block none = record { id = id; first_seen_at_block = block; last_seen_at_block = block }

row_after-advance :
    (id : Text) (block : ℕ) (old : Option Account) (rest : List (Text × ℕ))
    → row_after id (some (advance block (base id block old))) rest
      ≡ row_after id old ((id, block) ∷ rest)
unfolding advance
row_after-advance id block none rest =
    simp ((text_eq_iff id id).1 refl, le→ltb block block (omega arith))
row_after-advance id block (some acc) rest = elim (Bool-cases (ltb acc.last_seen_at_block block)) [
  | inl later ↦ rw ((text_eq_iff id id).1 refl, later) refl
  | inr earlier ↦ rw ((text_eq_iff id id).1 refl, earlier) refl
]

row_after-other :
    (id j : Text) (block : ℕ) (old : Option Account) (rest : List (Text × ℕ))
    → text_eq id j ≡ false
    → row_after j old ((id, block) ∷ rest) ≡ row_after j old rest
row_after-other id j block none rest other = simp other
row_after-other id j block (some acc) rest other = simp other

module _ {ℓ} {S : Type ℓ} (api : AccountStore S) where
  -- What is cached is what the store has.
  abbrev pub Coherent : Batch api → Type 0
  Coherent b =
      (id : Text) (acc : Account) → get b.cache id ≡ some acc → api.find b.store id ≡ some acc

  load-Coherent :
      (b : Batch api) (id : Text) (block : ℕ)
      → Coherent b
      → load api b id block ≡ base id block (api.find b.store id)
  unfolding load
  load-Coherent b id block c = elim (Option-cases (get b.cache id)) [
    | inr (acc, h) ↦ rw (load, h, c id acc h) refl
    | inl h ↦ elim (Option-cases (api.find b.store id)) [
      | inl e ↦ rw (load, h, e) (api.make-props _)
      | inr (acc, e) ↦ rw (load, h, e) refl
    ]
  ]

  id-base : (s : S) (id : Text) (block : ℕ) → (base id block (api.find s id)).id ≡ id
  id-base s id block = elim (Option-cases (api.find s id)) [
    | inl e ↦ rw e refl
    | inr (acc, e) ↦ rw e (api.find-id s id acc e)
  ]

  id-advance : (block : ℕ) (acc : Account) → (advance block acc).id ≡ acc.id
  unfolding advance
  id-advance block acc = elim (Bool-cases (ltb acc.last_seen_at_block block)) [
    | inl h ↦ rw h refl
    | inr h ↦ rw h refl
  ]

  id-loaded :
      (b : Batch api) (id : Text) (block : ℕ)
      → Coherent b
      → (advance block (load api b id block)).id ≡ id
  id-loaded b id block c =
      id-advance block _ ∙ ap (λ a. a.id) (load-Coherent b id block c) ∙ id-base b.store id block

  find-get_or_create :
      (b : Batch api) (id : Text) (block : ℕ) (j : Text)
      → Coherent b
      → api.find (get_or_create_account api b id block).0.store j ≡ (
          if text_eq id j
          then some (advance block (base id block (api.find b.store id)))
          else api.find b.store j)
  unfolding get_or_create_account
  find-get_or_create b id block j c =
      api.find-upsert b.store (advance block (load api b id block)) j
      ∙ simp (id-loaded b id block c) (simp (load-Coherent b id block c))

  get_or_create-Coherent :
      (b : Batch api) (id : Text) (block : ℕ)
      → Coherent b
      → Coherent (get_or_create_account api b id block).0
  unfolding get_or_create_account
  get_or_create-Coherent b id block c j acc h =
      let new : Account = advance block (load api b id block) in
      let cached : (if text_eq id j then some new else get b.cache j) ≡ some acc =
        sym (get-put b.cache id new j) ∙ h in
      api.find-upsert b.store new j
      ∙ simp (id-loaded b id block c) (elim (Bool-cases (text_eq id j)) [
        | inl same ↦ grind (arith, cached)
        | inr other ↦ grind (arith, cached, c j acc)
      ])

  row_after-step :
      (b : Batch api) (id : Text) (block : ℕ) (j : Text) (rest : List (Text × ℕ))
      → Coherent b
      → row_after j (api.find (get_or_create_account api b id block).0.store j) rest
        ≡ row_after j (api.find b.store j) ((id, block) ∷ rest)
  row_after-step b id block j rest c = elim (Bool-cases (text_eq id j)) [
    | inr other ↦
        ap (λ o. row_after j o rest) (find-get_or_create b id block j c ∙ simp other)
        ∙ sym (row_after-other id j block (api.find b.store j) rest other)
    | inl same ↦
        subst
          (λ x.
            row_after x (api.find (get_or_create_account api b id block).0.store x) rest
            ≡ row_after x (api.find b.store x) ((id, block) ∷ rest))
          ((text_eq_iff id j).0 same)
          (ap (λ o. row_after id o rest)
              (simp ((text_eq_iff id id).1 refl) at (find-get_or_create b id block id c))
            ∙ row_after-advance id block (api.find b.store id) rest)
  ]

-- Where the cache agrees with the store at the start, as an empty one does, a batch leaves in the
-- store for every id the row that it had, with its latest sighting if that is later, or a row first
-- seen at the first sighting if it had none; and the cache still agrees.
pub find-sight_all {ℓ} :
    {S : Type ℓ} (api : AccountStore S) (sightings : List (Text × ℕ)) (b : Batch {S = S} api)
    → Coherent api b
    → ((id : Text)
        → api.find (sight_all api b sightings).store id
          ≡ row_after id (api.find b.store id) sightings)
      × Coherent api (sight_all api b sightings)
unfolding sight_all
find-sight_all api [] b c = (λ id. sym (row_after-nil id (api.find b.store id)), c)
find-sight_all api ((id, block) ∷ rest) b c =
    let b' = (get_or_create_account api b id block).0 in
    let (rows, c') = find-sight_all api rest b' (get_or_create-Coherent api b id block c) in
    (λ j. rows j ∙ row_after-step api b id block j rest c, c')
