-- ===== src/Tests/Squid.antt =====
-- Runs of packages/indexer/squid-common.
use predictor_common.Prelude.Text.{Text, text_eq, text_eq_iff, codes}
use predictor_common.Squid.Account.{Account, AccountStore, Batch, sight_all}
use predictor_common.Squid.Account.Upsert.{Coherent, row_after, find-sight_all}
use predictor_common.Prelude.{
  none, arith, refl, ℕ, List, Bool-cases, if◌then◌else◌, inl, inr, Option, ◌≡◌, true, some, [], ◌∷◌,
  ◌++◌,
}
use predictor_common.Squid.ChainCoord.{ChainCoord, chain_coord_id_make, parse}
use predictor_common.Squid.ChainCoord.RoundTrip.{parse-chain_coord_id_make}
use predictor_common.Squid.Router.{RouterOpts, new_router, Item, tracked, process_events, log_limit}
use predictor_common.Squid.Router.Laws.{
  handled, Noted-new_router, asked_blocks, Noted, handled-process_events, process_events-Noted,
}

abbrev trade : ChainCoord
trade = record { block_number = 120; extrinsic_index = 2; event_index = 45 }

parse-chain_coord_id_make_example :
    parse (some (codes "buy")) (chain_coord_id_make trade (some (codes "buy"))) ≡ some trade
parse-chain_coord_id_make_example = parse-chain_coord_id_make trade (some (codes "buy"))

abbrev opts : RouterOpts
opts = record {
  all_events = codes "Swap" ∷ codes "Join" ∷ codes "Exit" ∷ [];
  overrides = (codes "Swap", tracked 0) ∷ [];
  is_tracked = true;
  returns = λ h item. some item.event;
  not_handled_log_limit = some 1;
}

abbrev event_of : (name : List ℕ) (event : ℕ) → Item
event_of name event = record { is_event = true; name = name; event_name = name; event = event }

abbrev batch : List (List Item)
batch =
    (event_of (codes "Join") 1 ∷ event_of (codes "Swap") 2 ∷ [])
    ∷ (event_of (codes "Exit") 3 ∷ event_of (codes "Gone") 4 ∷ [])
    ∷ []

handled-process_events_example :
    handled (process_events opts 0 batch new_router).trace
    ≡ handled new_router.trace ++ asked_blocks opts 0 batch
handled-process_events_example = handled-process_events opts batch new_router

process_events-Noted_example : Noted (log_limit opts) (process_events opts 0 batch new_router)
process_events-Noted_example =
    process_events-Noted opts 0 batch new_router (Noted-new_router (log_limit opts))

-- A table of accounts, the latest row first.
abbrev find_row : List Account → Text → Option Account
find_row [] id = none
find_row (a ∷ rows) id = if text_eq a.id id then some a else find_row rows id

find_row-id :
    (rows : List Account) (id : Text) (a : Account) → find_row rows id ≡ some a → a.id ≡ id
find_row-id [] id a h = grind arith
find_row-id (r ∷ rows) id a h = elim (Bool-cases (text_eq r.id id)) [
  | inl same ↦ grind (arith, text_eq_iff r.id id)
  | inr other ↦ find_row-id rows id a (simp other at h)
]

abbrev table : AccountStore (List Account)
table = record {
  find = find_row;
  upsert = λ rows a. a ∷ rows;
  make = λ props. props;
  find-upsert = λ rows a id. refl;
  find-id = find_row-id;
  make-props = λ props. refl;
}

abbrev alice : Account
alice = record { id = codes "alice"; first_seen_at_block = 3; last_seen_at_block = 9 }

abbrev start : Batch table
start = record { cache = []; store = alice ∷ [] }

abbrev sightings : List (Text × ℕ)
sightings = (codes "bob", 10) ∷ (codes "alice", 7) ∷ (codes "bob", 12) ∷ []

find-sight_all_example :
    ((id : Text)
      → table.find (sight_all table start sightings).store id
        ≡ row_after id (table.find start.store id) sightings)
    × Coherent table (sight_all table start sightings)
find-sight_all_example = find-sight_all table sightings start (λ id acc h. grind arith)
