-- ===== src/Squid/EntityCache/Transparency.antt =====
-- That the cache of packages/indexer/squid-common/src/entityCache.ts answers as the store would.
use predictor_common.Prelude.Text.{Text, text_eq, text_eq_iff}
use predictor_common.Prelude.Dict.{get-put, text_key}
use predictor_common.Prelude.{
  ℕ, ◌≡◌, refl, sym, ap, ◌∙◌, inl, inr, ◌==◌, ◌&&◌, Option, some, List, [], ◌∷◌, Bool-cases,
  Option-cases, if◌then◌else◌, arith,
}
use predictor_common.Squid.EntityCache.{
  EntityStore, written, erased, or_fail, Cache, cache_for, cached, set_cached, populate, invalidate,
  Call, gets, gets_or_fails, queries, inserts, upserts, saves, removes, flushes, Answer, found,
  State, write, read, call, run,
}
use predictor_common.Squid.EntityCache.Coherence.{
  StoreLaws, write_through, call_through, run_through, Coherent, cached-entry, cached-populate,
  cached-invalidate, written_mono, erased_mono,
}

module _ {ℓ} {S E Query Rows : Type ℓ} (api : EntityStore S E Query Rows) where
  -- A state and an answer against those of the store alone.
  abbrev Agrees : State api × Answer api → S × Answer api → Type ℓ
  Agrees (s, answer) (store, answer') =
      (s.store ≡ store) × (answer ≡ answer') × Coherent api s.cache s.store

  set_cached-Coherent :
      (cache : Cache api) (store : S) (class : ℕ) (id : Text) (e : E)
      → api.find store class id ≡ some e
      → Coherent api cache store
      → Coherent api (set_cached api cache class id e) store
  unfolding set_cached
  set_cached-Coherent cache store class id e present c class' id' x h =
      let entry : (if class == class' && text_eq id id'
            then some e
            else cached api cache class' id')
          ≡ some x =
        sym (
          cached-entry api cache class _ id (some e) (get-put (cache_for api cache class) id e)
            class' id')
        ∙ h in
      elim (Bool-cases (class == class' && text_eq id id')) [
        | inr other ↦ c class' id' x (rw other at entry)
        | inl same ↦
            let k : class ≡ class' = ground (arith, same) in
            let i : id ≡ id' = ground (arith, text_eq_iff id id') in
            rw⁻¹ k (rw⁻¹ i (present ∙ (rw same at entry)))
      ]

  read-Coherent :
      (s : State api) (class : ℕ) (id : Text)
      → Coherent api s.cache s.store
      → ((read api s class id).0.store ≡ s.store)
        × ((read api s class id).1 ≡ api.find s.store class id)
        × Coherent api (read api s class id).0.cache (read api s class id).0.store
  unfolding read set_cached
  read-Coherent s class id c = elim (Option-cases (cached api s.cache class id)) [
    | inr (e, hit) ↦ rw (hit, c class id e hit, read) (refl, refl, c)
    | inl miss ↦ elim (Option-cases (api.find s.store class id)) [
      | inl absent ↦ rw (miss, absent, read) (refl, refl, c)
      | inr (e, present) ↦
          rw (miss, present, read)
            (refl, refl, set_cached-Coherent s.cache s.store class id e present c)
    ]
  ]

  write-Agrees :
      (operation : S → List E → Option S) (update : Cache api → List E → Cache api)
      (change : ℕ → Text → List E → Option E → Option E)
      → ((s s' : S) (entities : List E)
          → operation s entities ≡ some s'
          → (class : ℕ) (id : Text)
          → api.find s' class id ≡ change class id entities (api.find s class id))
      → ((cache : Cache api) (entities : List E) (class : ℕ) (id : Text)
          → cached api (update cache entities) class id
            ≡ change class id entities (cached api cache class id))
      → ((class : ℕ) (id : Text) (entities : List E) (old row : Option E)
          → ((e : E) → old ≡ some e → row ≡ some e)
          → (e : E) → change class id entities old ≡ some e
          → change class id entities row ≡ some e)
      → (s : State api) (entities : List E) → Coherent api s.cache s.store
      → Agrees
          (write api operation update s entities)
          (write_through api operation s.store entities)
  unfolding write
  write-Agrees operation update change law cache_law mono s [] c = (refl, refl, c)
  write-Agrees operation update change law cache_law mono s (e ∷ entities) c =
      elim (Option-cases (operation s.store (e ∷ entities))) [
        | inl refused ↦ rw (refused, write, write_through) (refl, refl, c)
        | inr (s', done) ↦
            rw (done, write, write_through)
              (
                refl,
                refl,
                λ k i x h.
                    law s.store s' (e ∷ entities) done k i
                    ∙ mono k i (e ∷ entities) _ _ (c k i) x
                        (sym (cache_law s.cache (e ∷ entities) k i) ∙ h),
              )
      ]

  module _ (laws : StoreLaws api) where
    call-Agrees :
        (s : State api) (c : Call api)
        → Coherent api s.cache s.store
        → Agrees (call api s c) (call_through api s.store c)
    unfolding call
    call-Agrees s (gets class id) c =
        let (kept, answer, coherent) = read-Coherent s class id c in
        (kept, ap found answer, coherent)
    call-Agrees s (gets_or_fails class id) c =
        let (kept, answer, coherent) = read-Coherent s class id c in
        (kept, ap (or_fail api class id) answer, coherent)
    call-Agrees s (queries q) c = (refl, refl, c)
    call-Agrees s (inserts entities) c =
        write-Agrees api.insert (populate api) (written api) laws.insert_rows
          (λ cache es. cached-populate api es cache) (written_mono api) s entities c
    call-Agrees s (upserts entities) c =
        write-Agrees api.upsert (populate api) (written api) laws.upsert_rows
          (λ cache es. cached-populate api es cache) (written_mono api) s entities c
    call-Agrees s (saves entities) c =
        write-Agrees api.upsert (populate api) (written api) laws.upsert_rows
          (λ cache es. cached-populate api es cache) (written_mono api) s entities c
    call-Agrees s (removes entities) c =
        write-Agrees api.remove (invalidate api) (erased api) laws.remove_rows
          (λ cache es. cached-invalidate api es cache) (erased_mono api) s entities c
    call-Agrees s flushes c = (refl, refl, c)

-- Over a store whose writes, when it takes them, change rows as documented: from a cache that agrees
-- with the store, as an empty one does, every list of calls settles with what the store alone would
-- answer, rejections and missing entities included, leaves the same store, and a cache that agrees.
pub run-Agrees {ℓ} :
    {S E Query Rows : Type ℓ} (api : EntityStore S E Query Rows)
    → StoreLaws api
    → (calls : List (Call api)) (s : State api) → Coherent api s.cache s.store
    → ((run api s calls).0.store ≡ (run_through api s.store calls).0)
      × ((run api s calls).1 ≡ (run_through api s.store calls).1)
      × Coherent api (run api s calls).0.cache (run api s calls).0.store
unfolding run
run-Agrees api laws [] s c = (refl, refl, c)
run-Agrees api laws (x ∷ calls) s c =
    let (kept, answer, c') = call-Agrees api laws s x c in
    let (store, answers, c'') = run-Agrees api laws calls (call api s x).0 c' in
    (rw⁻¹ kept store, rw⁻¹ kept (λ i. answer i ∷ answers i), c'')
