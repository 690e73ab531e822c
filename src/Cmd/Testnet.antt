-- ===== src/Cmd/Testnet.antt =====
-- `initTestnetFiles` as a whole (cmd/tatcoind/cmd/testnet_multi_node.go).
use tatcoin.Base.{ℕ, ◌^◌, List, [], ◌∷◌, ◌++◌, map, leb, not, ◌||◌, get_elem?, if◌then◌else◌, false}
use tatcoin.App.Ended.{Ended, went_on, returned}
use tatcoin.Cmd.Flags.{Text}
use tatcoin.Cmd.Collect.{
  Config, Tools, Collected, collected, failed, Progress, gentxs_dir, collect_gen_files,
}
use tatcoin.Cmd.Paths.{Os, copy_gentxs}
use tatcoin.Cmd.NodeSdk.{
  chain_prefix, Prog, ◌>>=◌, ◌>>◌, try_step, as_outcome, InitArgs, AppConfig, NodeSdk,
}
use tatcoin.Cmd.Nodes.{Made, or_default, init_nodes}
use tatcoin.Cmd.GenFiles.{GenSdk, init_gen_files}

-- The letters and digits of a random text.
abbrev pub charset : Text
charset =
    97 ∷ 98 ∷ 99 ∷ 100 ∷ 101 ∷ 102 ∷ 103 ∷ 104 ∷ 105 ∷ 106 ∷ 107 ∷ 108 ∷ 109 ∷ 110 ∷ 111 ∷ 112 ∷ 113
    ∷ 114 ∷ 115 ∷ 116 ∷ 117 ∷ 118 ∷ 119 ∷ 120 ∷ 121 ∷ 122 ∷ 48 ∷ 49 ∷ 50 ∷ 51 ∷ 52 ∷ 53 ∷ 54 ∷ 55
    ∷ 56 ∷ 57 ∷ []

-- `generateRandomString`, for the numbers that are drawn, each of which is below 36.
abbrev pub letter : ℕ → ℕ
letter k = or_default 0 (get_elem? charset k)

unfoldable pub generate_random_string : List ℕ → Text
generate_random_string draws = map letter draws

-- `if args.chainID == ""`
abbrev pub chain_id_or : List ℕ → Text → Text
chain_id_or draws [] = chain_prefix ++ generate_random_string draws
chain_id_or draws (c ∷ s) = c ∷ s

-- What the collecting ends in.
abbrev pub ended_of :
    {E W Rest J : Type 0} → Collected (E × W) (Progress W Rest J) → Ended (E × W) (Config Rest × W)
ended_of (collected p) = went_on (p.config, p.files)
ended_of (failed e) = returned e
ended_of Collected.panics = Ended.panics

module _ {E W Rest AppRest Key Keyring Addr Algo Coin M T Account Bytes : Type 0}
    (sdk : NodeSdk E W Rest AppRest Key Keyring Addr Algo Coin M T Account Bytes)
    {Genesis G Time : Type 0} (tools : Tools E W Rest Text Key Genesis G Time)
    {J Json GenRest AuthRest BankRest Packed : Type 0}
    (gen : GenSdk E W J Json GenRest AuthRest BankRest Account Packed Coin) {Contents : Type 0}
    (os : Os E W Contents) where
  -- `appConfig`, from the default one.
  abbrev pub set_app_config : Text → AppConfig AppRest → AppConfig AppRest
  set_app_config min_gas_prices c = record c {
    min_gas_prices = min_gas_prices;
    api_enable = false;
    base_min_gas_prices = "0.0001stake";
    enable_hostname_label = false;
    telemetry_enabled = false;
    prometheus_retention_time = 0;
  }

  -- The arguments with a chain identifier.
  abbrev pub with_chain : List ℕ → InitArgs Coin → InitArgs Coin
  with_chain draws args = record args {
    shared = record args.shared { chain_id = chain_id_or draws args.shared.chain_id };
  }

  -- What there is before the first round.
  abbrev pub nothing_made : Config Rest → AppConfig AppRest → Made Rest AppRest Key Coin Account
  nothing_made config app_config = record {
    config = config;
    app_config = app_config;
    node_ids = [];
    val_pub_keys = [];
    gen_accounts = [];
    gen_balances = [];
    gen_files = [];
    persistent_peers = [];
    gentxs_files = [];
  }

  -- What follows the loop.
  unfoldable pub finish_testnet :
      InitArgs Coin → Time → Made Rest AppRest Key Coin Account → Prog E W (Config Rest)
  unfolding init_gen_files copy_gentxs collect_gen_files
  finish_testnet args now m =
      init_gen_files gen args.shared.chain_id m.gen_accounts m.gen_balances m.gen_files
        args.shared.num_validators
      >> (try_step (λ w. as_outcome (
            copy_gentxs os (λ i. gentxs_dir tools args.shared m.persistent_peers now i)
              m.gentxs_files args.shared.num_validators 0 w))
          >> λ w. ended_of (
              collect_gen_files tools args.shared m.persistent_peers now m.node_ids m.val_pub_keys
                m.config w))

  -- The loop and what follows it.
  unfoldable pub make_testnet :
      InitArgs Coin → Time → Config Rest → AppConfig AppRest → Prog E W (Config Rest)
  unfolding init_nodes finish_testnet
  make_testnet args now config app_config =
      init_nodes sdk tools.join tools.genesis_file args args.shared.num_validators 0
        (nothing_made config (set_app_config args.min_gas_prices app_config))
      >>= finish_testnet args now

  -- `initTestnetFiles`: `make` panics on a negative number of validators, and on one that is larger than
  -- the longest slice of texts or of keys, `max_slice`, which depends on the platform.
  unfoldable pub init_testnet_files :
      ℕ → List ℕ → InitArgs Coin → Time → Config Rest → AppConfig AppRest → Prog E W (Config Rest)
  unfolding make_testnet
  init_testnet_files max_slice draws args now config app_config w =
      if leb (2 ^ 63) args.shared.num_validators || not (leb args.shared.num_validators max_slice)
      then Ended.panics
      else make_testnet (with_chain draws args) now config app_config w
