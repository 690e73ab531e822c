-- ===== src/Cmd/Nodes.antt =====
-- The loop of `initTestnetFiles` and `writeFile` (cmd/tatcoind/cmd/testnet_multi_node.go).
use Prim.Native.String.{String}
use tatcoin.Base.{ℕ, zero, suc, ◌+◌, Option, none, some, List, [], ◌∷◌, ◌++◌}
use tatcoin.Cmd.Flags.{Text, lookup, itoa, port_of}
use tatcoin.Cmd.Ports.{Listener, port}
use tatcoin.Cmd.Collect.{Config, config_name, gentx_name, any_address, colon}
use tatcoin.Cmd.NodeSdk.{
  key_seed_json, gentx_prefix, json_suffix, at_sign, comma, app_toml, localhost, Prog, ◌>>=◌, ◌>>◌,
  give, try_clean, try_step, try_pure, as_outcome, change, InitArgs, AppConfig, Balance, NodeSdk,
}

-- What the rounds have made: the config that they share, the two slices by index, the lists that are
-- appended to, and the config of the app.
pub record Made (Rest AppRest Key Coin Account : Type 0) : Type 0 where
  pub config : Config Rest
  pub app_config : AppConfig AppRest
  pub node_ids : List Text
  pub val_pub_keys : List Key
  pub gen_accounts : List Account
  pub gen_balances : List (Balance Coin)
  pub gen_files : List Text
  pub persistent_peers : Text
  pub gentxs_files : List Text

-- `if persistentPeers == ""`
abbrev pub add_peer : Text → Text → Text
add_peer [] memo = memo
add_peer (c ∷ peers) memo = (c ∷ peers) ++ (comma ++ memo)

-- `sdk.DefaultBondDenom`, as app/config.go sets it
abbrev pub default_bond_denom : String
default_bond_denom = "stake"

abbrev pub or_default : {A : Type 0} → A → Option A → A
or_default d none = d
or_default d (some a) = a

module _ {E W Rest AppRest Key Keyring Addr Algo Coin M T Account Bytes : Type 0}
    (sdk : NodeSdk E W Rest AppRest Key Keyring Addr Algo Coin M T Account Bytes)
    (join : List Text → Text) (genesis_file : Config Rest → Text) (args : InitArgs Coin) where
  -- `writeFile`
  unfoldable pub write_file : Text → Text → Bytes → Prog E W (Unit {0})
  write_file file dir contents = do
    try_step (λ w. as_outcome (sdk.mkdir_all dir w))
    try_step (λ w. as_outcome (sdk.write_os_file file contents w))

  abbrev pub dir_name : ℕ → Text
  dir_name i = args.shared.node_dir_prefix ++ itoa i

  abbrev pub dir : ℕ → Text
  dir i = join (args.shared.output_dir ∷ dir_name i ∷ [])

  abbrev pub gentxs_path : ℕ → Text
  gentxs_path i = join (args.shared.output_dir ∷ dir_name i ∷ config_name ∷ gentx_name ∷ [])

  -- `os.RemoveAll(args.outputDir)`
  abbrev pub clean : W → W
  clean w = sdk.remove_all args.shared.output_dir w

  -- The config of node `i`.
  unfoldable pub node_config : ℕ → Config Rest → Config Rest
  node_config i c = record c {
    root = dir i;
    moniker = dir_name i;
    rpc_listen = any_address ++ port_of args.shared.ports i;
  }

  unfoldable pub memo_of : Text → ℕ → Text
  memo_of node_id i =
      node_id ++ (at_sign ++ (args.starting_ip_address ++ (colon ++ itoa (port Listener.p2p i))))

  -- The coins of an account.
  unfoldable pub account_coins : List Coin
  account_coins = sdk.sort_coins (
      sdk.new_coin "testtoken" (sdk.tokens_from_consensus_power 1000)
      ∷ sdk.new_coin default_bond_denom (sdk.tokens_from_consensus_power 500)
      ∷ [])

  -- The stake of validator `i`.
  unfoldable pub val_tokens : ℕ → Coin
  unfolding lookup
  val_tokens i =
      or_default (sdk.new_coin default_bond_denom (sdk.tokens_from_consensus_power 100))
        (lookup i args.validators_stakes_amount)

  -- The keyring of node `i`, its account, and the file with the seed words.
  unfoldable pub make_account : ℕ → Prog E W (Keyring × Addr)
  unfolding write_file
  make_account i = do
    kb ← try_step (sdk.new_keyring args.keyring_backend (dir i))
    algo ← try_pure (sdk.signing_algo args.algo kb)
    (addr, secret) ← try_clean clean (sdk.generate_save_coin_key kb (dir_name i) algo)
    cli_print ← try_pure (sdk.marshal_secret secret)
    write_file (join (dir i ∷ key_seed_json ∷ [])) (dir i) cli_print
    give (kb, addr)

  -- The signed transaction of node `i`, in its file.
  unfoldable pub make_gentx : ℕ → Text → Key → Keyring → Addr → Text → Prog E W (Unit {0})
  unfolding write_file memo_of val_tokens
  make_gentx i node_id key kb addr file = do
    msg ←
        try_pure
          (sdk.new_msg_create_validator (sdk.val_addr_text addr) key (val_tokens i) (dir_name i))
    tx ← try_pure (sdk.set_msgs msg)
    let memo = memo_of node_id i
    signed ← try_pure (sdk.sign kb args.shared.chain_id memo (dir_name i) (sdk.set_memo memo tx))
    tx_bz ← try_pure (sdk.encode_json signed)
    write_file file (gentxs_path i) tx_bz

  -- The addresses in the config of the app.
  unfoldable pub set_app_addresses : ℕ → AppConfig AppRest → AppConfig AppRest
  set_app_addresses i c = record c {
    grpc_address = args.starting_ip_address ++ (colon ++ itoa (port Listener.grpc i));
    api_address = localhost ++ itoa (port Listener.api i);
  }

  -- One round.
  unfoldable pub init_node :
      ℕ → Made Rest AppRest Key Coin Account → Prog E W (Made Rest AppRest Key Coin Account)
  unfolding node_config memo_of account_coins make_account make_gentx set_app_addresses
  init_node i m = do
    let config = node_config i m.config
    try_clean clean (λ w. as_outcome (sdk.mkdir_all (join (dir i ∷ config_name ∷ [])) w))
    (node_id, key) ← try_clean clean (sdk.initialize_node_validator_files config)
    (kb, addr) ← make_account i
    let file = join (gentxs_path i ∷ (gentx_prefix ++ (node_id ++ json_suffix)) ∷ [])
    make_gentx i node_id key kb addr file
    let app_config = set_app_addresses i m.app_config
    change (sdk.write_config_file (join (dir i ∷ config_name ∷ app_toml ∷ [])) app_config)
    give (record {
      config = config;
      app_config = app_config;
      node_ids = m.node_ids ++ (node_id ∷ []);
      val_pub_keys = m.val_pub_keys ++ (key ∷ []);
      gen_accounts = m.gen_accounts ++ (sdk.base_account addr ∷ []);
      gen_balances =
          m.gen_balances ++ (record { address = sdk.addr_text addr; coins = account_coins } ∷ []);
      gen_files = m.gen_files ++ (genesis_file config ∷ []);
      persistent_peers = add_peer m.persistent_peers (memo_of node_id i);
      gentxs_files = m.gentxs_files ++ (file ∷ []);
    })

  -- `for i := 0; i < numValidators; i++`, with `n` rounds left
  unfoldable pub init_nodes :
      ℕ → ℕ → Made Rest AppRest Key Coin Account → Prog E W (Made Rest AppRest Key Coin Account)
  unfolding init_node
  init_nodes zero i m = give m
  init_nodes (suc n) i m = init_node i m >>= init_nodes n (i + 1)
