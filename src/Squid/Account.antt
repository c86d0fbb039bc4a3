-- ===== src/Squid/Account.antt =====
-- packages/indexer/squid-common/src/account.ts: `getOrCreateAccount`. The account that the cache holds
-- is the object that the function changes, so the cache is written again. Block heights are natural.
pub mod Upsert
use predictor_common.Prelude.Text.{Text, text_eq}
use predictor_common.Prelude.Dict.{get, put, text_key}
use predictor_common.Prelude.{ℕ, ◌≡◌, Option, none, some, List, [], ◌∷◌, ltb, if◌then◌else◌}

-- `AccountLike` and `AccountProps`.
pub record Account : Type 0 where
  pub id : Text
  pub first_seen_at_block : ℕ
  pub last_seen_at_block : ℕ

unfoldable pub advance : ℕ → Account → Account
advance block_number acc =
    if ltb acc.last_seen_at_block block_number
    then record acc { last_seen_at_block = block_number }
    else acc

-- What the helper asks of a `Store` and of the entity: `get` by id, `upsert` of one account by its
-- id, and a `make` that keeps its props.
pub record AccountStore {ℓ} (S : Type ℓ) : Type ℓ where
  pub find : S → Text → Option Account
  pub upsert : S → Account → S
  pub make : Account → Account
  pub find-upsert :
      (s : S) (a : Account) (id : Text)
      → find (upsert s a) id ≡ (if text_eq a.id id then some a else find s id)
  pub find-id : (s : S) (id : Text) (a : Account) → find s id ≡ some a → a.id ≡ id
  pub make-props : (props : Account) → make props ≡ props

module _ {ℓ} {S : Type ℓ} (api : AccountStore S) where
  -- The batch's cache and the store.
  pub record Batch : Type ℓ where
    pub cache : List (Text × Account)
    pub store : S

  unfoldable pub load : Batch → Text → ℕ → Account
  load b id block_number = elim (get b.cache id) [
    | some acc ↦ acc
    | none ↦ elim (api.find b.store id) [
      | some acc ↦ acc
      | none ↦ api.make (record {
        id = id;
        first_seen_at_block = block_number;
        last_seen_at_block = block_number;
      })
    ]
  ]

  unfoldable pub get_or_create_account : Batch → Text → ℕ → Batch × Account
  get_or_create_account b id block_number =
      let acc = advance block_number (load b id block_number) in
      (record { cache = put b.cache id acc; store = api.upsert b.store acc }, acc)

  -- `getOrCreateAccountFromBytes`, with the codec's `encodeAddress`.
  unfoldable pub get_or_create_account_from_bytes :
      (List ℕ → Text) → Batch → List ℕ → ℕ → Batch × Account
  get_or_create_account_from_bytes encode_address b raw_bytes block_number =
      get_or_create_account b (encode_address raw_bytes) block_number

  -- A batch: the ids that its events name, each with the block.
  unfoldable pub sight_all : Batch → List (Text × ℕ) → Batch
  sight_all b [] = b
  sight_all b ((id, block_number) ∷ rest) =
      sight_all (get_or_create_account b id block_number).0 rest
