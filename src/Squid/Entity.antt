-- ===== src/Squid/Entity.antt =====
-- packages/indexer/squid-common/src/entity.ts: reading an entity or skipping, and the upsert. A
-- promise is what it settles to.
pub mod Rows
use predictor_common.Prelude.Text.{Text, codes, text_eq}
use predictor_common.Prelude.{◌≡◌, Bool, Option, none, some, List, [], ◌∷◌, ◌++◌, if◌then◌else◌}

pub data Settled {ℓ} (A : Type ℓ) : Type ℓ where
  fulfilled : A → Settled A
  rejected : Text → Settled A

-- The payload and the message of the call of `ctx.log.error`.
pub record Skip : Type 0 where
  pub entity : Text
  pub id : Text
  pub event : Text
  pub action : Text
  pub message : Text

abbrev pub skip : Text → Text → Text → Skip
skip entity_name id event_name = record {
  entity = entity_name;
  id = id;
  event = event_name;
  action = codes "skip";
  message =
      entity_name
      ++ (codes " " ++ (id ++ (codes " not found for " ++ (event_name ++ codes " — skipping"))));
}

abbrev pub handled {ℓ} : {R : Type ℓ} → List Skip × Settled R → List Skip × Settled (Option R)
handled (log, fulfilled r) = (log, fulfilled (some r))
handled (log, rejected e) = (log, rejected e)

module _ {ℓ κ} {T : Type ℓ} {R : Type κ} where
  -- `handler` gives what its promise settles to and its own lines of the log.
  abbrev pub with_loaded :
      Settled (Option T)
      → Text
      → Text
      → Text
      → (T → List Skip × Settled R)
      → List Skip × Settled (Option R)
  with_loaded (rejected e) entity_name id event_name handler = ([], rejected e)
  with_loaded (fulfilled none) entity_name id event_name handler =
      (skip entity_name id event_name ∷ [], fulfilled none)
  with_loaded (fulfilled (some entity)) entity_name id event_name handler = handled (handler entity)

  unfoldable pub with_entity :
      Settled (Option T)
      → Text
      → Text
      → Text
      → (T → List Skip × Settled R)
      → List Skip × Settled (Option R)
  with_entity load entity_name id event_name handler =
      with_loaded load entity_name id event_name handler

-- A store of entities: `get` by id and `save` of one entity under its id.
pub record EntityStore {ℓ κ} (S : Type ℓ) (T : Type κ) : Type (ℓ ⊔ κ) where
  pub id_of : T → Text
  pub find : S → Text → Option T
  pub save : S → T → Settled S
  pub find-save :
      (s : S) (e : T) (s' : S) (id : Text)
      → save s e ≡ fulfilled s'
      → find s' id ≡ (if text_eq (id_of e) id then some e else find s id)
  pub find-id : (s : S) (id : Text) (e : T) → find s id ≡ some e → id_of e ≡ id

module _ {ℓ κ} {S : Type ℓ} {T : Type κ} (api : EntityStore S T) where
  abbrev pub taken : Option T → T → T
  taken none fresh = fresh
  taken (some entity) fresh = entity

  abbrev pub saved : T → Settled S → Settled (S × T)
  saved entity (fulfilled s) = fulfilled (s, entity)
  saved entity (rejected e) = rejected e

  unfoldable pub get_or_create_and_update : S → Settled (Option T) → T → (T → T) → Settled (S × T)
  get_or_create_and_update s (rejected e) fresh mutate = rejected e
  get_or_create_and_update s (fulfilled loaded) fresh mutate =
      let entity = mutate (taken loaded fresh) in saved entity (api.save s entity)
