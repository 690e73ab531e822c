-- ===== src/Cmd/MultiNode/Runs.antt =====
-- The theorems on `multi-node` at the small local testnet.
use tatcoin.Base.{ℕ, ◌^◌, ◌≡◌, ◌≢◌, refl, Option, none, some, [], ◌∷◌, ◌==◌, if◌then◌else◌, arith}
use tatcoin.Keeper.Sdk.{ok}
use tatcoin.App.Run.{Run, done}
use tatcoin.App.Ended.{panics}
use tatcoin.Cmd.Flags.{Text, split}
use tatcoin.Cmd.Local.{
  small_nodes, small_tools, small_gen, small_os, small_gen-IsCalm, first_config, first_app_config,
}
use tatcoin.Cmd.MultiNode.{SdkNames, FlagSet, multi_node_run}
use tatcoin.Cmd.MultiNode.Calm.{Safe-multi_node_run}
use tatcoin.Cmd.MultiNode.Panic.{multi_node_run-panics}

abbrev sdk_names : SdkNames
sdk_names = record {
  keyring_backend = "keyring-backend";
  chain_id = "chain-id";
  min_gas_prices = "minimum-gas-prices";
  key_type = "key-type";
  secp256k1 = "secp256k1";
}

-- A number is none if it is negative; a text is read by its first byte.
abbrev read_int : Text → Option (Option ℕ)
read_int [] = none
read_int (c ∷ s) = some (if c == 45 then none else some c)

abbrev coin_of : Option ℕ → Run ℕ
coin_of none = Run.panics
coin_of (some n) = done n

-- Every text flag is the given one; there are two validators.
abbrev flags_of : Text → FlagSet ℕ
flags_of s = record { get_string = λ name. ok s; get_int = λ name. ok 2 }

Safe-multi_node_run_example :
    multi_node_run sdk_names read_int coin_of small_nodes small_tools small_gen small_os
      (ok sdk_names)
      (flags_of (53 ∷ 44 ∷ 55 ∷ []))
      (2 ^ 48)
      (0 ∷ 35 ∷ [])
      9
      first_config
      first_app_config
      0
    ≢ panics
unfolding split
Safe-multi_node_run_example =
    Safe-multi_node_run read_int coin_of sdk_names small_nodes small_tools small_gen small_os
      (ok sdk_names) (flags_of (53 ∷ 44 ∷ 55 ∷ [])) (2 ^ 48) (0 ∷ 35 ∷ []) 9 first_config
      first_app_config small_gen-IsCalm (omega arith) (omega arith) ((53, refl), ((55, refl), tt)) 0

multi_node_run-panics_example :
    multi_node_run sdk_names read_int coin_of small_nodes small_tools small_gen small_os
      (ok sdk_names)
      (flags_of (53 ∷ 44 ∷ 45 ∷ 55 ∷ []))
      (2 ^ 48)
      []
      9
      first_config
      first_app_config
      0
    ≡ panics
unfolding split
multi_node_run-panics_example =
    multi_node_run-panics read_int coin_of none refl sdk_names small_nodes small_tools small_gen
      small_os sdk_names (flags_of (53 ∷ 44 ∷ 45 ∷ 55 ∷ [])) (53 ∷ 44 ∷ 45 ∷ 55 ∷ [])
      ((53 ∷ []) ∷ []) [] (45 ∷ 55 ∷ []) (2 ^ 48) [] 9 first_config first_app_config 0 refl refl
      refl
