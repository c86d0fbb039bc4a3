-- ===== src/Squid/EntityCache/Coherence.antt =====
-- The cache of packages/indexer/squid-common/src/entityCache.ts against the store alone.
use mathlib.Core.Path.{subst}
use predictor_common.Prelude.Text.{Text, text_eq}
use predictor_common.Prelude.Dict.{get, put, remove, get-put, get-remove, number_key, text_key}
use predictor_common.Prelude.{
  ℕ, ◌≡◌, refl, ap, ◌∙◌, inl, inr, Bool, true, false, ◌==◌, ==_iff, ◌&&◌, Option, none, some, List,
  [], ◌∷◌, Bool-cases, if◌then◌else◌,
}
use predictor_common.Squid.EntityCache.{
  EntityStore, is_row, written, erased, or_empty, or_fail, Cache, cache_for, cached, set_cached,
  populate, invalidate, Call, gets, gets_or_fails, queries, inserts, upserts, saves, removes,
  flushes, Answer, found, rows, finished, rejected,
}

module _ {ℓ} {S E Query Rows : Type ℓ} (api : EntityStore S E Query Rows) where
  -- What a write that is not rejected does to each row, as the store documents it.
  pub record StoreLaws : Type ℓ where
    pub insert_rows :
        (s s' : S) (entities : List E)
        → api.insert s entities ≡ some s'
        → (class : ℕ) (id : Text)
        → api.find s' class id ≡ written api class id entities (api.find s class id)
    pub upsert_rows :
        (s s' : S) (entities : List E)
        → api.upsert s entities ≡ some s'
        → (class : ℕ) (id : Text)
        → api.find s' class id ≡ written api class id entities (api.find s class id)
    pub remove_rows :
        (s s' : S) (entities : List E)
        → api.remove s entities ≡ some s'
        → (class : ℕ) (id : Text)
        → api.find s' class id ≡ erased api class id entities (api.find s class id)

  -- The calls on the store, with no cache between.
  abbrev pub write_through : (S → List E → Option S) → S → List E → S × Answer api
  write_through operation s [] = (s, finished)
  write_through operation s (e ∷ entities) = elim (operation s (e ∷ entities)) [
    | none ↦ (s, rejected)
    | some s' ↦ (s', finished)
  ]

  abbrev pub call_through : S → Call api → S × Answer api
  call_through s (gets class id) = (s, found (api.find s class id))
  call_through s (gets_or_fails class id) = (s, or_fail api class id (api.find s class id))
  call_through s (queries q) = (s, rows (api.query s q))
  call_through s (inserts entities) = write_through api.insert s entities
  call_through s (upserts entities) = write_through api.upsert s entities
  call_through s (saves entities) = write_through api.upsert s entities
  call_through s (removes entities) = write_through api.remove s entities
  call_through s flushes = (s, finished)

  abbrev pub run_through : S → List (Call api) → S × List (Answer api)
  run_through s [] = (s, [])
  run_through s (c ∷ calls) = (
    (run_through (call_through s c).0 calls).0,
    (call_through s c).1 ∷ (run_through (call_through s c).0 calls).1,
  )

  -- What is cached is the row that the store has.
  abbrev pub Coherent : Cache api → S → Type ℓ
  Coherent cache s =
      (class : ℕ) (id : Text) (e : E)
      → cached api cache class id ≡ some e
      → api.find s class id ≡ some e

  get-or_empty :
      (b : Bool) (r : List (Text × E)) (o : Option (List (Text × E))) (id : Text)
      → get (or_empty api (if b then some r else o)) id
        ≡ (if b then get r id else get (or_empty api o) id)
  get-or_empty true r o id = refl
  get-or_empty false r o id = refl

  cached-put :
      (cache : Cache api) (class : ℕ) (r : List (Text × E)) (class' : ℕ) (id' : Text)
      → cached api (put cache class r) class' id'
        ≡ (if class == class' then get r id' else cached api cache class' id')
  cached-put cache class r class' id' =
      ap (λ o. get (or_empty api o) id') (get-put cache class r class')
      ∙ get-or_empty (class == class') r (get cache class') id'

  -- A change of one entry of one class.
  pub cached-entry :
      (cache : Cache api) (class : ℕ) (r : List (Text × E)) (id : Text) (o : Option E)
      → ((j : Text) → get r j ≡ (if text_eq id j then o else cached api cache class j))
      → (class' : ℕ) (id' : Text)
      → cached api (put cache class r) class' id'
        ≡ (if class == class' && text_eq id id' then o else cached api cache class' id')
  cached-entry cache class r id o entry class' id' =
      cached-put cache class r class' id' ∙ elim (Bool-cases (class == class')) [
        | inr other ↦ rw other refl
        | inl same ↦ rw same (
            subst (λ c. get r id' ≡ (if text_eq id id' then o else cached api cache c id'))
              ((==_iff class class').0 same) (entry id'))
      ]

  pub cached-populate :
      (entities : List E) (cache : Cache api) (class : ℕ) (id : Text)
      → cached api (populate api cache entities) class id
        ≡ written api class id entities (cached api cache class id)
  unfolding populate set_cached
  cached-populate [] cache class id = refl
  cached-populate (e ∷ entities) cache class id =
      cached-populate entities (set_cached api cache (api.class_of e) (api.id_of e) e) class id
      ∙ ap (λ o. written api class id entities o)
          (cached-entry cache (api.class_of e) _ (api.id_of e) (some e)
            (get-put (cache_for api cache (api.class_of e)) (api.id_of e) e) class id)

  pub cached-invalidate :
      (entities : List E) (cache : Cache api) (class : ℕ) (id : Text)
      → cached api (invalidate api cache entities) class id
        ≡ erased api class id entities (cached api cache class id)
  unfolding invalidate
  cached-invalidate [] cache class id = refl
  cached-invalidate (e ∷ entities) cache class id =
      cached-invalidate entities
        (put cache (api.class_of e) (remove (cache_for api cache (api.class_of e)) (api.id_of e)))
        class id
      ∙ ap (λ o. erased api class id entities o)
          (cached-entry cache (api.class_of e) _ (api.id_of e) none
            (get-remove (cache_for api cache (api.class_of e)) (api.id_of e)) class id)

  -- Both keep a row and a cached entity in step.
  pub written_mono :
      (class : ℕ) (id : Text) (entities : List E) (old row : Option E)
      → ((e : E) → old ≡ some e → row ≡ some e)
      → (e : E) → written api class id entities old ≡ some e
      → written api class id entities row ≡ some e
  written_mono class id [] old row h = h
  written_mono class id (x ∷ entities) old row h =
      written_mono class id entities _ _ (elim (Bool-cases (is_row api class id x)) [
        | inl is ↦ rw is (λ e g. g)
        | inr other ↦ rw other h
      ])

  pub erased_mono :
      (class : ℕ) (id : Text) (entities : List E) (old row : Option E)
      → ((e : E) → old ≡ some e → row ≡ some e)
      → (e : E) → erased api class id entities old ≡ some e
      → erased api class id entities row ≡ some e
  erased_mono class id [] old row h = h
  erased_mono class id (x ∷ entities) old row h =
      erased_mono class id entities _ _ (elim (Bool-cases (is_row api class id x)) [
        | inl is ↦ rw is (λ e g. g)
        | inr other ↦ rw other h
      ])
