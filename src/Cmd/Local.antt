-- ===== src/Cmd/Local.antt =====
-- A small local testnet: the state behind the files counts the writes; a text stands for its bytes.
use tatcoin.Base.{ℕ, ◌+◌, none, List, [], ◌∷◌, ◌++◌, true, false}
use tatcoin.Keeper.Sdk.{ok}
use tatcoin.App.Run.{Run, done}
use tatcoin.Cmd.Flags.{Text}
use tatcoin.Cmd.Collect.{Config, Tools}
use tatcoin.Cmd.Paths.{Os}
use tatcoin.Cmd.NodeSdk.{InitArgs, AppConfig, NodeSdk}
use tatcoin.Cmd.GenFiles.{GenSdk}
use tatcoin.Cmd.Safe.{IsCalm}

abbrev pub join_all : List Text → Text
join_all [] = []
join_all (t ∷ ts) = t ++ (47 ∷ join_all ts)

-- A coin is its amount.
abbrev pub small_nodes : NodeSdk ℕ ℕ ℕ ℕ ℕ ℕ ℕ ℕ ℕ ℕ ℕ ℕ ℕ
small_nodes = record {
  mkdir_all = λ dir w. (none, w + 1);
  remove_all = λ dir w. 0;
  write_os_file = λ file bytes w. (none, w + 1);
  initialize_node_validator_files = λ c w. (ok (110 ∷ [], w), w + 1);
  new_keyring = λ backend dir w. (ok 5, w);
  signing_algo = λ name kb. ok 6;
  generate_save_coin_key = λ kb name algo w. (ok (w, 115 ∷ []), w + 1);
  marshal_secret = λ secret. ok 7;
  tokens_from_consensus_power = λ power. power + power;
  new_coin = λ denom n. n;
  sort_coins = λ coins. coins;
  addr_text = λ addr. addr ∷ [];
  val_addr_text = λ addr. addr ∷ [];
  base_account = λ addr. addr;
  new_msg_create_validator = λ text key coin moniker. ok coin;
  set_msgs = λ msg. ok msg;
  set_memo = λ memo tx. tx;
  sign = λ kb chain memo name tx. ok tx;
  encode_json = λ tx. ok tx;
  write_config_file = λ path c w. w + 1;
}

abbrev pub small_tools : Tools ℕ ℕ ℕ Text ℕ ℕ ℕ ℕ
small_tools = record {
  join = join_all;
  genesis_file = λ c. c.root;
  app_genesis_from_file = λ path w. ok w;
  gen_app_state = λ c chain dir node key genesis w. (ok (genesis, c), w);
  write_config_file = λ path c w. w + 1;
  export_genesis_file = λ g w. (none, w + 1);
}

abbrev pub plus : List ℕ → List ℕ → Run (List ℕ)
plus c d = done (c ++ d)

abbrev pub small_gen : GenSdk ℕ ℕ ℕ ℕ ℕ ℕ (List ℕ) ℕ ℕ ℕ
small_gen = record {
  default_genesis = record { auth = 1; bank = 2; others = 3 };
  must_unmarshal_auth = λ j. done (record { accounts = []; rest = j });
  must_marshal_auth = λ s. done s.rest;
  must_unmarshal_bank = λ j. done (record { balances = []; supply = 4 ∷ []; rest = [] });
  must_marshal_bank = λ s. done 2;
  pack_accounts = λ accounts. ok accounts;
  sanitize_genesis_balances = λ bals. bals;
  add = plus;
  marshal_indent = λ state. ok 8;
  save_as = λ doc path w. (none, w + 1);
}

abbrev pub small_os : Os ℕ ℕ ℕ
small_os = record {
  base = λ path. path;
  join = join_all;
  abs = λ path. ok path;
  rel = λ from to. ok (46 ∷ 46 ∷ []);
  is_abs = λ path. false;
  open_file = λ path w. ok w;
  create = λ path w. (ok tt, w);
  copy = λ path contents w. (ok 1, w + 1);
  sync = λ path w. (none, w);
}

pub small_gen-IsCalm : IsCalm small_gen
small_gen-IsCalm = record {
  auth_readable = λ p. cc;
  bank_readable = λ p. cc;
  auth_written = λ s p. cc;
  bank_written = λ s p. cc;
  added = λ c d p. cc;
}

abbrev pub two_nodes : InitArgs ℕ
two_nodes = record {
  shared = record {
    chain_id = [];
    output_dir = 111 ∷ [];
    node_dir_prefix = 118 ∷ [];
    num_validators = 2;
    ports = [];
  };
  algo = [];
  keyring_backend = [];
  min_gas_prices = [];
  starting_ip_address = 49 ∷ [];
  validators_stakes_amount = [];
}

abbrev pub first_config : Config ℕ
first_config = record {
  root = [];
  moniker = [];
  persistent_peers = [];
  allow_duplicate_ip = false;
  p2p_listen = [];
  rpc_listen = [];
  proxy_app = [];
  prometheus_listen = [];
  prometheus = false;
  other = 0;
}

abbrev pub first_app_config : AppConfig ℕ
first_app_config = record {
  min_gas_prices = [];
  base_min_gas_prices = "";
  api_enable = true;
  enable_hostname_label = true;
  telemetry_enabled = true;
  prometheus_retention_time = 1;
  grpc_address = [];
  api_address = [];
  rest = 0;
}
