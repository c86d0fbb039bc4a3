-- ===== src/Network.antt =====
-- packages/chain/network-constants/src: the networks and the addresses of their explorer.
pub mod Explorer
use mathlib.Core.List.{reverse}
use predictor_common.Prelude.Text.{Text, codes}
use predictor_common.Prelude.Digits.{decimal}
use predictor_common.Prelude.Int.{ℤ, pos, negsuc}
use predictor_common.Prelude.{
  ℕ, ◌==◌, Bool, true, false, Option, none, some, List, [], ◌∷◌, ◌++◌, leb, if◌then◌else◌,
}

pub data NetworkId : Type 0 where
  testnet dev : NetworkId

-- `wsEndpoints` is a list with a first element.
pub record PredictorNetwork : Type 0 where
  pub id : NetworkId
  pub display_name : Text
  pub ss58_prefix : ℕ
  pub decimals : ℕ
  pub token_symbol : Text
  pub ws_endpoints : Text × List Text
  pub explorer_base_url : Text
  pub explorer_network_path : Text

abbrev pub primary_ws_endpoint : PredictorNetwork → Text
primary_ws_endpoint network = network.ws_endpoints.0

abbrev pub ss58_prefix_max : ℕ
ss58_prefix_max = 16383

-- Of a number that is an integer; `none` is null.
unfoldable pub parse_ss58_prefix : ℤ → Option ℕ
parse_ss58_prefix (negsuc n) = none
parse_ss58_prefix (pos n) = if leb n ss58_prefix_max then some n else none

-- `none` is a throw.
unfoldable pub unsafe_ss58_prefix : ℤ → Option ℕ
unfolding parse_ss58_prefix
unsafe_ss58_prefix value = elim (parse_ss58_prefix value) [
  | none ↦ none
  | some parsed ↦ some parsed
]

abbrev pub predictor_ss58_prefix : ℕ
predictor_ss58_prefix = 42

abbrev pub skip_slashes : Text → Text
skip_slashes [] = []
skip_slashes (c ∷ s) = if c == b'/' then skip_slashes s else c ∷ s

-- `url.replace(/\/+$/, "")`.
abbrev pub normalise_base_url : Text → Text
normalise_base_url url = reverse (skip_slashes (reverse url))

abbrev pub define_network : PredictorNetwork → PredictorNetwork
define_network net = record net { explorer_base_url = normalise_base_url net.explorer_base_url }

abbrev pub predictor_testnet : PredictorNetwork
predictor_testnet = define_network (record {
  id = testnet;
  display_name = codes "Cassandra - Predictor Public Testnet";
  ss58_prefix = predictor_ss58_prefix;
  decimals = 10;
  token_symbol = codes "PRD";
  ws_endpoints = (codes "wss://chain-external.testnet.prdctr.io", []);
  explorer_base_url = codes "https://explorer.testnet.prdctr.io";
  explorer_network_path = codes "predictor";
})

abbrev pub predictor_dev : PredictorNetwork
predictor_dev = define_network (record {
  id = dev;
  display_name = codes "Predictor Dev";
  ss58_prefix = predictor_ss58_prefix;
  decimals = 10;
  token_symbol = codes "PRD";
  ws_endpoints = (codes "ws://127.0.0.1:9944", []);
  explorer_base_url = codes "https://explorer.dev.prdctr.io";
  explorer_network_path = codes "predictor";
})

abbrev pub get_predictor_network : NetworkId → PredictorNetwork
get_predictor_network testnet = predictor_testnet
get_predictor_network dev = predictor_dev

pub record ChainCoord : Type 0 where
  pub block : ℕ
  pub index : ℕ

pub data ExtrinsicTab : Type 0 where
  calls events : ExtrinsicTab

abbrev pub tab_name : ExtrinsicTab → Text
tab_name calls = codes "calls"
tab_name events = codes "events"

abbrev pub format_chain_coord : ChainCoord → Text
format_chain_coord coord = decimal coord.block ++ (b'-' ∷ decimal coord.index)

abbrev pub explorer_root : PredictorNetwork → Text
explorer_root network = network.explorer_base_url ++ (b'/' ∷ network.explorer_network_path)

abbrev pub with_tab : Text → Option ExtrinsicTab → Text
with_tab base none = base
with_tab base (some tab) = base ++ (b'/' ∷ tab_name tab)

unfoldable pub explorer_extrinsic_url : PredictorNetwork → ChainCoord → Option ExtrinsicTab → Text
explorer_extrinsic_url network coord tab =
    with_tab (explorer_root network ++ (codes "/extrinsic/" ++ format_chain_coord coord)) tab

unfoldable pub explorer_event_url : PredictorNetwork → ChainCoord → Text
explorer_event_url network coord =
    explorer_root network ++ (codes "/event/" ++ format_chain_coord coord)

unfoldable pub explorer_block_url : PredictorNetwork → ℕ → Text
explorer_block_url network block = explorer_root network ++ (codes "/block/" ++ decimal block)

unfoldable pub explorer_account_url : PredictorNetwork → Text → Text
explorer_account_url network address = explorer_root network ++ (codes "/account/" ++ address)

unfoldable pub explorer_graphql_url : PredictorNetwork → Text
explorer_graphql_url network = network.explorer_base_url ++ codes "/graphql"
