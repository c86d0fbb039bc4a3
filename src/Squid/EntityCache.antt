-- ===== src/Squid/EntityCache.antt =====
-- packages/indexer/squid-common/src/entityCache.ts: `createEntityCache` over a TypeORM store. A class is
-- a number, an entity a value: a caller that changes a cached object without saving it is left out.
pub mod Coherence
pub mod Transparency
use predictor_common.Prelude.Text.{Text}
use predictor_common.Prelude.Dict.{get, put, remove, number_key, text_key}
use predictor_common.Prelude.{ℕ, Bool, ◌==◌, ◌&&◌, Option, none, some, List, [], ◌∷◌, if◌then◌else◌}
use predictor_common.Prelude.Text.{text_eq}

-- What the cache asks of a `Store`: `get` by class and id, the writes of a list, where `none` is a
-- rejection that changes nothing, and `find`, `findOne` and `count` as queries.
pub record EntityStore {ℓ} (S E Query Rows : Type ℓ) : Type ℓ where
  pub class_of : E → ℕ
  pub id_of : E → Text
  pub find : S → ℕ → Text → Option E
  pub insert : S → List E → Option S
  pub upsert : S → List E → Option S
  pub remove : S → List E → Option S
  pub query : S → Query → Rows

module _ {ℓ} {S E Query Rows : Type ℓ} (api : EntityStore S E Query Rows) where
  -- Whether an entity is the row of that class and id.
  abbrev pub is_row : ℕ → Text → E → Bool
  is_row class id e = api.class_of e == class && text_eq (api.id_of e) id

  -- A row after entities are written, and after they are removed.
  abbrev pub written : ℕ → Text → List E → Option E → Option E
  written class id [] row = row
  written class id (e ∷ entities) row =
      written class id entities (if is_row class id e then some e else row)

  abbrev pub erased : ℕ → Text → List E → Option E → Option E
  erased class id [] row = row
  erased class id (e ∷ entities) row =
      erased class id entities (if is_row class id e then none else row)

  abbrev pub Cache : Type ℓ
  Cache = List (ℕ × List (Text × E))

  abbrev pub or_empty : Option (List (Text × E)) → List (Text × E)
  or_empty none = []
  or_empty (some c) = c

  abbrev pub cache_for : Cache → ℕ → List (Text × E)
  cache_for cache class = or_empty (get cache class)

  abbrev pub cached : Cache → ℕ → Text → Option E
  cached cache class id = get (cache_for cache class) id

  unfoldable pub set_cached : Cache → ℕ → Text → E → Cache
  set_cached cache class id e = put cache class (put (cache_for cache class) id e)

  unfoldable pub populate : Cache → List E → Cache
  populate cache [] = cache
  populate cache (e ∷ entities) =
      populate (set_cached cache (api.class_of e) (api.id_of e) e) entities

  unfoldable pub invalidate : Cache → List E → Cache
  invalidate cache [] = cache
  invalidate cache (e ∷ entities) =
      invalidate
        (put cache (api.class_of e) (remove (cache_for cache (api.class_of e)) (api.id_of e)))
        entities

  -- The methods of the cache.
  pub data Call : Type ℓ where
    gets : (class : ℕ) → (id : Text) → Call
    gets_or_fails : (class : ℕ) → (id : Text) → Call
    queries : Query → Call
    inserts upserts saves removes : List E → Call
    flushes : Call

  -- What the promise settles with.
  pub data Answer : Type ℓ where
    found : Option E → Answer
    not_found : (class : ℕ) → (id : Text) → Answer
    rows : Rows → Answer
    finished rejected : Answer

  -- `getOrFail` throws on a row that is not there.
  abbrev pub or_fail : ℕ → Text → Option E → Answer
  or_fail class id none = not_found class id
  or_fail class id (some e) = found (some e)

  pub record State : Type ℓ where
    pub cache : Cache
    pub store : S

  -- A write: an empty list is returned on, a rejection leaves the cache as it is.
  unfoldable pub write :
      (S → List E → Option S) → (Cache → List E → Cache) → State → List E → State × Answer
  write operation update s [] = (s, finished)
  write operation update s (e ∷ entities) = elim (operation s.store (e ∷ entities)) [
    | none ↦ (s, rejected)
    | some store ↦ (record { cache = update s.cache (e ∷ entities); store = store }, finished)
  ]

  unfoldable pub read : State → ℕ → Text → State × Option E
  read s class id = elim (cached s.cache class id) [
    | some e ↦ (s, some e)
    | none ↦ elim (api.find s.store class id) [
      | none ↦ (s, none)
      | some e ↦ (record s { cache = set_cached s.cache class id e }, some e)
    ]
  ]

  unfoldable pub call : State → Call → State × Answer
  call s (gets class id) = let (s', e) = read s class id in (s', found e)
  call s (gets_or_fails class id) = let (s', e) = read s class id in (s', or_fail class id e)
  call s (queries q) = (s, rows (api.query s.store q))
  call s (inserts entities) = write api.insert populate s entities
  call s (upserts entities) = write api.upsert populate s entities
  call s (saves entities) = write api.upsert populate s entities
  call s (removes entities) = write api.remove invalidate s entities
  call s flushes = (s, finished)

  -- A batch: the calls in order, with what they settle with.
  unfoldable pub run : State → List Call → State × List Answer
  run s [] = (s, [])
  run s (c ∷ calls) =
      let (s', answer) = call s c in let (s'', answers) = run s' calls in (s'', answer ∷ answers)
