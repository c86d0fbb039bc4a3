-- ===== src/Tests/Cache.antt =====
-- Runs of the entity cache of packages/indexer/squid-common, over a table in memory.
use predictor_common.Prelude.Text.{Text, text_eq, codes}
use predictor_common.Prelude.{
  ℕ, ◌≡◌, refl, sym, ap, ◌∙◌, inl, inr, Bool, true, false, ◌==◌, ◌&&◌, ◌||◌, Option, none, some,
  List, [], ◌∷◌, Bool-cases, if◌then◌else◌, arith,
}
use predictor_common.Squid.EntityCache.{
  EntityStore, written, erased, Call, gets, gets_or_fails, inserts, saves, removes, found,
  not_found, finished, rejected, State, write, read, call, run, populate, invalidate, set_cached,
}
use predictor_common.Squid.EntityCache.Coherence.{StoreLaws, run_through, Coherent}
use predictor_common.Squid.EntityCache.Transparency.{run-Agrees}

record Doc : Type 0 where
  class : ℕ
  id : Text
  version : ℕ

abbrev Table : Type 0
Table = ℕ → Text → Option Doc

abbrev is_doc : ℕ → Text → Doc → Bool
is_doc class id d = d.class == class && text_eq d.id id

abbrev put_docs : ℕ → Text → List Doc → Option Doc → Option Doc
put_docs class id [] row = row
put_docs class id (d ∷ docs) row =
    put_docs class id docs (if is_doc class id d then some d else row)

abbrev drop_docs : ℕ → Text → List Doc → Option Doc → Option Doc
drop_docs class id [] row = row
drop_docs class id (d ∷ docs) row =
    drop_docs class id docs (if is_doc class id d then none else row)

abbrev is_present : Option Doc → Bool
is_present none = false
is_present (some d) = true

abbrev has_any : Table → List Doc → Bool
has_any t [] = false
has_any t (d ∷ docs) = is_present (t d.class d.id) || has_any t docs

-- A second row under a key is refused.
abbrev insert_docs : Table → List Doc → Option Table
insert_docs t docs = if has_any t docs then none else some (λ c i. put_docs c i docs (t c i))

abbrev db : EntityStore Table Doc ℕ ℕ
db = record {
  class_of = λ d. d.class;
  id_of = λ d. d.id;
  find = λ t class id. t class id;
  insert = insert_docs;
  upsert = λ t docs. some (λ c i. put_docs c i docs (t c i));
  remove = λ t docs. some (λ c i. drop_docs c i docs (t c i));
  query = λ t q. q;
}

put_docs-written :
    (docs : List Doc) (class : ℕ) (id : Text) (row : Option Doc)
    → put_docs class id docs row ≡ written db class id docs row
put_docs-written [] class id row = refl
put_docs-written (d ∷ docs) class id row = put_docs-written docs class id _

drop_docs-erased :
    (docs : List Doc) (class : ℕ) (id : Text) (row : Option Doc)
    → drop_docs class id docs row ≡ erased db class id docs row
drop_docs-erased [] class id row = refl
drop_docs-erased (d ∷ docs) class id row = drop_docs-erased docs class id _

abbrev or_else : Table → Option Table → Table
or_else t none = t
or_else t (some t') = t'

insert_docs_rows :
    (t t' : Table) (docs : List Doc)
    → insert_docs t docs ≡ some t'
    → (class : ℕ) (id : Text) → t' class id ≡ written db class id docs (t class id)
insert_docs_rows t t' docs h class id = elim (Bool-cases (has_any t docs)) [
  | inl refused ↦ cc (rw refused at h)
  | inr fresh ↦
      sym (ap (λ o. or_else t o class id) (rw fresh at h))
      ∙ put_docs-written docs class id (t class id)
]

abbrev db_laws : StoreLaws db
db_laws = record {
  insert_rows = insert_docs_rows;
  upsert_rows = λ t t' docs h class id.
      sym (ap (λ o. or_else t o class id) h) ∙ put_docs-written docs class id (t class id);
  remove_rows = λ t t' docs h class id.
      sym (ap (λ o. or_else t o class id) h) ∙ drop_docs-erased docs class id (t class id);
}

abbrev doc : (version : ℕ) → Doc
doc version = record { class = 1; id = codes "a"; version = version }

abbrev blank : State db
blank = record { cache = []; store = λ c i. none }

abbrev calls : List (Call db)
calls =
    gets 1 (codes "a")
    ∷ inserts (doc 1 ∷ [])
    ∷ inserts (doc 2 ∷ [])
    ∷ saves (doc 3 ∷ [])
    ∷ gets_or_fails 1 (codes "a")
    ∷ removes (doc 3 ∷ [])
    ∷ gets_or_fails 1 (codes "a")
    ∷ []

run_test :
    (run db blank calls).1
    ≡ found none
      ∷ finished
      ∷ rejected
      ∷ finished
      ∷ found (some (doc 3))
      ∷ finished
      ∷ not_found 1 (codes "a")
      ∷ []
unfolding run call write read populate invalidate set_cached
run_test = refl

run-Agrees_example :
    ((run db blank calls).0.store ≡ (run_through db blank.store calls).0)
    × ((run db blank calls).1 ≡ (run_through db blank.store calls).1)
    × Coherent db (run db blank calls).0.cache (run db blank calls).0.store
run-Agrees_example = run-Agrees db db_laws calls blank (λ class id e h. grind arith)
