-- ===== src/Tests/Network.antt =====
-- Runs of packages/chain/network-constants and of packages/indexer/squid-common/src/substrate.ts.
use predictor_common.Prelude.Text.{codes}
use predictor_common.Prelude.Digits.{decimal}
use predictor_common.Prelude.Int.{pos}
use predictor_common.Prelude.{◌≡◌, refl, none, some}
use predictor_common.Network.{
  testnet, dev, events, get_predictor_network, normalise_base_url, explorer_extrinsic_url,
  explorer_account_url, explorer_graphql_url, parse_ss58_prefix, primary_ws_endpoint,
}
use predictor_common.Squid.Substrate.{
  null_value, text, object, kinded, wrapped, undefined_value, signed_id, unsigned,
  classify_signature_address, classify_origin,
}

slashes_test : normalise_base_url (codes "https://e.io//") ≡ codes "https://e.io"
slashes_test = refl

extrinsic_test :
    explorer_extrinsic_url
      (get_predictor_network testnet)
      (record { block = 120; index = 3 })
      (some events)
    ≡ codes "https://explorer.testnet.prdctr.io/predictor/extrinsic/120-3/events"
unfolding explorer_extrinsic_url decimal
extrinsic_test = refl

account_test :
    explorer_account_url (get_predictor_network dev) (codes "5F")
    ≡ codes "https://explorer.dev.prdctr.io/predictor/account/5F"
unfolding explorer_account_url
account_test = refl

graphql_test :
    explorer_graphql_url (get_predictor_network dev)
    ≡ codes "https://explorer.dev.prdctr.io/graphql"
unfolding explorer_graphql_url
graphql_test = refl

endpoint_test : primary_ws_endpoint (get_predictor_network dev) ≡ codes "ws://127.0.0.1:9944"
endpoint_test = refl

prefix_test : parse_ss58_prefix (pos 16384) ≡ none
unfolding parse_ss58_prefix
prefix_test = refl

kinded_test :
    classify_signature_address (object null_value (text (codes "0x"))) ≡ kinded (codes "0x")
unfolding classify_signature_address
kinded_test = refl

wrapped_test :
    classify_signature_address (object undefined_value (text (codes "0x"))) ≡ wrapped (codes "0x")
unfolding classify_signature_address
wrapped_test = refl

signed_test :
    classify_origin (
      object
        (text (codes "system"))
        (object (text (codes "Signed")) (object (text (codes "Id")) (text (codes "0x")))))
    ≡ signed_id (codes "0x")
unfolding classify_origin
signed_test = refl

root_test :
    classify_origin (object (text (codes "system")) (object (text (codes "Root")) undefined_value))
    ≡ unsigned
unfolding classify_origin
root_test = refl
