-- ===== src/Cmd/Collect.antt =====
-- `collectGenFiles` (cmd/tatcoind/cmd/testnet_multi_node.go): each node's config and genesis file.
use tatcoin.Base.{ℕ, zero, suc, ◌+◌, Option, none, some, List, [], ◌∷◌, ◌++◌, Bool, true, get_elem?}
use tatcoin.Keeper.Sdk.{Outcome, ok, err}
use tatcoin.Cmd.Flags.{Text, Map, itoa, port_of}
use tatcoin.Cmd.Ports.{Listener, port}

-- What the loop sets of CometBFT's `Config`; `other` is what stays as it is.
pub record Config (Rest : Type 0) : Type 0 where
  pub root : Text
  pub moniker : Text
  pub persistent_peers : Text
  pub allow_duplicate_ip : Bool
  pub p2p_listen : Text
  pub rpc_listen : Text
  pub proxy_app : Text
  pub prometheus_listen : Text
  pub prometheus : Bool
  pub other : Rest

-- A genesis file that was written: the chain, the state of the app and the time.
pub record GenesisFile (J Time : Type 0) : Type 0 where
  pub path : Text
  pub chain : Text
  pub app_state : J
  pub time : Time

-- The arguments of the command that the loop uses.
pub record Args : Type 0 where
  pub chain_id : Text
  pub output_dir : Text
  pub node_dir_prefix : Text
  pub num_validators : ℕ
  pub ports : Map Text

-- What it takes from the SDK and the file system, over the files `W`. The state that
-- `GenAppStateFromConfig` gives without an error is not nil; it may change the config.
pub record Tools (E W Rest Node Key Genesis J Time : Type 0) : Type 0 where
  pub join : List Text → Text
  pub genesis_file : Config Rest → Text
  pub app_genesis_from_file : Text → W → Outcome E Genesis
  pub gen_app_state :
      Config Rest → Text → Text → Node → Key → Genesis → W → Outcome E (J × Config Rest) × W
  pub write_config_file : Text → Config Rest → W → W
  pub export_genesis_file : GenesisFile J Time → W → Option E × W

-- The end of the loop: the files, the config that the nodes share, or an error or an index out of
-- range.
pub data Collected (E S : Type 0) : Type 0 where
  collected : S → Collected E S
  failed : E → Collected E S
  panics : Collected E S

-- "config"
abbrev pub config_name : Text
config_name = 99 ∷ 111 ∷ 110 ∷ 102 ∷ 105 ∷ 103 ∷ []

-- "gentx"
abbrev pub gentx_name : Text
gentx_name = 103 ∷ 101 ∷ 110 ∷ 116 ∷ 120 ∷ []

-- "config.toml"
abbrev pub config_toml : Text
config_toml = 99 ∷ 111 ∷ 110 ∷ 102 ∷ 105 ∷ 103 ∷ 46 ∷ 116 ∷ 111 ∷ 109 ∷ 108 ∷ []

-- "tcp://0.0.0.0:"
abbrev pub any_address : Text
any_address = 116 ∷ 99 ∷ 112 ∷ 58 ∷ 47 ∷ 47 ∷ 48 ∷ 46 ∷ 48 ∷ 46 ∷ 48 ∷ 46 ∷ 48 ∷ 58 ∷ []

-- "tcp://127.0.0.1:"
abbrev pub local_address : Text
local_address = 116 ∷ 99 ∷ 112 ∷ 58 ∷ 47 ∷ 47 ∷ 49 ∷ 50 ∷ 55 ∷ 46 ∷ 48 ∷ 46 ∷ 48 ∷ 46 ∷ 49 ∷ 58 ∷ []

-- ":"
abbrev pub colon : Text
colon = 58 ∷ []

-- What a round hands on: the files, the shared config and `appState`.
pub record Progress (W Rest J : Type 0) : Type 0 where
  pub files : W
  pub config : Config Rest
  pub app_state : Option J

-- `if appState == nil { appState = nodeAppState }`
abbrev pub canonical : {J : Type 0} → Option J → J → J
canonical none node_state = node_state
canonical (some state) node_state = state

module _ {E W Rest Node Key Genesis J Time : Type 0}
    (tools : Tools E W Rest Node Key Genesis J Time) (args : Args) (persistent_peers : Text)
    (gen_time : Time) where
  -- `nodeDirName` and `nodeDir`
  abbrev pub node_dir_name : ℕ → Text
  node_dir_name i = args.node_dir_prefix ++ itoa i

  abbrev pub node_dir : ℕ → Text
  node_dir i = tools.join (args.output_dir ∷ node_dir_name i ∷ [])

  abbrev pub gentxs_dir : ℕ → Text
  gentxs_dir i = tools.join (node_dir i ∷ config_name ∷ gentx_name ∷ [])

  -- The addresses of node `i`.
  unfoldable pub set_addresses : ℕ → Config Rest → Config Rest
  set_addresses i c = record c {
    persistent_peers = persistent_peers;
    allow_duplicate_ip = true;
    p2p_listen = any_address ++ itoa (port Listener.p2p i);
    rpc_listen = local_address ++ port_of args.ports i;
    proxy_app = local_address ++ itoa (port Listener.proxy_app i);
    prometheus_listen = colon ++ itoa (port Listener.prometheus i);
    prometheus = true;
  }

  -- The last part of a round: the genesis file.
  abbrev pub finish_node : Config Rest → J → Option E × W → Collected (E × W) (Progress W Rest J)
  finish_node c state (none, w) =
      collected (record { files = w; config = c; app_state = some state })
  finish_node c state (some e, w) = failed (e, w)

  abbrev pub write_node :
      ℕ → Option J → Outcome E (J × Config Rest) × W → Collected (E × W) (Progress W Rest J)
  write_node i app_state (err e, w) = failed (e, w)
  write_node i app_state (ok (node_state, c), w) =
      let c' = set_addresses i c in
      let w' =
        tools.write_config_file (tools.join (c'.root ∷ config_name ∷ config_toml ∷ [])) c' w in
      let state = canonical app_state node_state in
      finish_node c' state (
        tools.export_genesis_file
          (record {
            path = tools.genesis_file c';
            chain = args.chain_id;
            app_state = state;
            time = gen_time;
          })
          w')

  abbrev pub read_node :
      ℕ
      → Config Rest
      → Option J
      → Node
      → Key
      → W
      → Outcome E Genesis
      → Collected (E × W) (Progress W Rest J)
  read_node i c app_state node key w (err e) = failed (e, w)
  read_node i c app_state node key w (ok genesis) =
      write_node i app_state (tools.gen_app_state c args.chain_id (gentxs_dir i) node key genesis w)

  -- `nodeIDs[i], valPubKeys[i]`, and what follows
  abbrev pub index_node :
      ℕ
      → Config Rest
      → Option J
      → W
      → Option Node
      → Option Key
      → Collected (E × W) (Progress W Rest J)
  index_node i c app_state w none key = panics
  index_node i c app_state w (some node) none = panics
  index_node i c app_state w (some node) (some key) =
      read_node i c app_state node key w (tools.app_genesis_from_file (tools.genesis_file c) w)

  -- One round of the loop.
  unfoldable pub collect_node :
      List Node → List Key → ℕ → Progress W Rest J → Collected (E × W) (Progress W Rest J)
  unfolding set_addresses
  collect_node nodes keys i p =
      let c = record p.config { moniker = node_dir_name i; root = node_dir i } in
      index_node i c p.app_state p.files (get_elem? nodes i) (get_elem? keys i)

  -- `for i := 0; i < numValidators; i++`, with `n` rounds left
  abbrev pub then_collect :
      (Progress W Rest J → Collected (E × W) (Progress W Rest J))
      → Collected (E × W) (Progress W Rest J)
      → Collected (E × W) (Progress W Rest J)
  then_collect next (collected p) = next p
  then_collect next (failed e) = failed e
  then_collect next panics = panics

  unfoldable pub collect_loop :
      List Node → List Key → ℕ → ℕ → Progress W Rest J → Collected (E × W) (Progress W Rest J)
  unfolding collect_node
  collect_loop nodes keys zero i p = collected p
  collect_loop nodes keys (suc n) i p =
      then_collect (collect_loop nodes keys n (i + 1)) (collect_node nodes keys i p)

  -- `collectGenFiles`, from the files `w` and the config that the command has
  unfoldable pub collect_gen_files :
      List Node → List Key → Config Rest → W → Collected (E × W) (Progress W Rest J)
  unfolding collect_loop
  collect_gen_files nodes keys c w =
      collect_loop nodes keys args.num_validators 0
        (record { files = w; config = c; app_state = none })
