-- ===== src/Cmd/Runs.antt =====
-- The theorems of the testnet command at concrete flags and nodes.
use tatcoin.Base.{
  ℕ, ◌≡◌, ◌+◌, ◌==◌, ◌++◌, false, if◌then◌else◌, refl, sym, ap, Option, none, some, List, [], ◌∷◌,
  get_elem?, arith,
}
use tatcoin.App.Run.{Run, done}
use tatcoin.Cmd.Flags.{Text, itoa, lookup, split, read_stakes, read_stakes_loop}
use tatcoin.Cmd.Ports.{Listener, port-injective}
use tatcoin.Keeper.Sdk.{Outcome, ok, err}
use tatcoin.Cmd.Paths.{Os}
use tatcoin.Cmd.Collect.{
  Config, GenesisFile, Args, Tools, Collected, collected, failed, panics, Progress,
  collect_gen_files,
}
use tatcoin.Cmd.Canonical.{IsRound, Rounds, collect_gen_files-IsRound}
use tatcoin.Cmd.Stakes.{coins, lookup-read_stakes}

-- Numbers of one digit.
abbrev one_digit : Text → Option ℕ
one_digit (c ∷ []) = some c
one_digit _ = none

abbrev any_coin : ℕ → Run ℕ
any_coin n = done n

-- "1,xx,3": the second amount is not a number.
abbrev three_amounts : Text
three_amounts = 49 ∷ 44 ∷ 120 ∷ 120 ∷ 44 ∷ 51 ∷ []

lookup-read_stakes_example :
    ◌≡◌ {A = Option ℕ}
      (lookup 1 ((1, 51) ∷ (0, 49) ∷ []))
      (get_elem? (coins one_digit any_coin (split three_amounts)) 1)
unfolding read_stakes read_stakes_loop split
lookup-read_stakes_example =
    lookup-read_stakes one_digit any_coin three_amounts ((1, 51) ∷ (0, 49) ∷ []) 1 refl

port-injective_example : (Listener.rpc ≡ Listener.rpc) × (◌≡◌ {A = ℕ} 3 3)
port-injective_example =
    port-injective Listener.rpc Listener.rpc 3 3 (omega arith) (omega arith) refl

-- Files are a list of pairs of a path and a content, the last write first; a path is relative to the
-- directory it begins with.
abbrev Files : Type 0
Files = List (Text × ℕ)

drop_part : Text → Text → Text
drop_part [] path = path
drop_part (d ∷ dir) [] = 46 ∷ 46 ∷ []
drop_part (d ∷ dir) (c ∷ path) = if d == c then drop_part dir path else 46 ∷ 46 ∷ []

abbrev put_file : Text → ℕ → Files → Files
put_file path content files = (path, content) ∷ files

-- A join without separators.
concat : List Text → Text
concat [] = []
concat (x ∷ xs) = x ++ concat xs

abbrev small_os : Os ℕ Files ℕ
small_os = record {
  base = λ path. path;
  join = concat;
  abs = λ path. ok path;
  rel = λ dir path. ok (drop_part dir path);
  is_abs = λ path. false;
  open_file = λ path files. ok 7;
  create = λ path files. (ok tt, files);
  copy = λ path content files. (ok 1, put_file path content files);
  sync = λ path files. (none, files);
}

abbrev small_tools : Tools ℕ (List (GenesisFile ℕ ℕ)) ℕ ℕ ℕ ℕ ℕ ℕ
small_tools = record {
  join = concat;
  genesis_file = λ c. c.root;
  app_genesis_from_file = λ path files. ok 0;
  gen_app_state = λ c chain dir node key genesis files. (ok (node + key, c), files);
  write_config_file = λ path c files. files;
  export_genesis_file = λ g files. (none, g ∷ files);
}

small_tools-keeps :
    (c c' : Config ℕ) (chain dir : Text) (node key g : ℕ) (w w' : List (GenesisFile ℕ ℕ))
    (state : ℕ)
    → small_tools.gen_app_state c chain dir node key g w ≡ (ok (state, c'), w')
    → c'.root ≡ c.root
small_tools-keeps c c' chain dir node key g w w' state e = ap (λ r. root_of r.0) (sym e)
  where
    root_of : Outcome ℕ (ℕ × Config ℕ) → Text
    root_of (ok (n, x)) = x.root
    root_of (err x) = []

abbrev two_nodes : Args
two_nodes = record {
  chain_id = 9 ∷ [];
  output_dir = 46 ∷ [];
  node_dir_prefix = 118 ∷ [];
  num_validators = 2;
  ports = [];
}

abbrev first_config : Config ℕ
first_config = record {
  root = [];
  moniker = [];
  persistent_peers = [];
  allow_duplicate_ip = false;
  p2p_listen = [];
  rpc_listen = [];
  proxy_app = [];
  prometheus_listen = [];
  prometheus = false;
  other = 0;
}

abbrev no_progress : Progress (List (GenesisFile ℕ ℕ)) ℕ ℕ
no_progress = record { files = []; config = first_config; app_state = none }

progress_of :
    Collected (ℕ × List (GenesisFile ℕ ℕ)) (Progress (List (GenesisFile ℕ ℕ)) ℕ ℕ)
    → Progress (List (GenesisFile ℕ ℕ)) ℕ ℕ
progress_of (collected p) = p
progress_of (failed e) = no_progress
progress_of panics = no_progress

abbrev two_collected : Progress (List (GenesisFile ℕ ℕ)) ℕ ℕ
two_collected =
    progress_of
      (collect_gen_files small_tools two_nodes [] 5 (10 ∷ 20 ∷ []) (1 ∷ 2 ∷ []) first_config [])

abbrev start_collecting : Progress (List (GenesisFile ℕ ℕ)) ℕ ℕ
start_collecting = record { files = []; config = first_config; app_state = none }

collect_gen_files-IsRound_example :
    (before after : Progress (List (GenesisFile ℕ ℕ)) ℕ ℕ) × Rounds small_tools two_nodes [] 5
      (10 ∷ 20 ∷ [])
      (1 ∷ 2 ∷ [])
      0
      1
      start_collecting
      before
    × IsRound small_tools two_nodes [] 5 (10 ∷ 20 ∷ []) (1 ∷ 2 ∷ []) 1 before after
    × Rounds small_tools two_nodes [] 5 (10 ∷ 20 ∷ []) (1 ∷ 2 ∷ []) 2 0 after two_collected
    × (after.config.root ≡ concat ((46 ∷ []) ∷ (118 ∷ itoa 1) ∷ []))
    × (after.app_state ≡ two_collected.app_state)
unfolding collect_gen_files progress_of
collect_gen_files-IsRound_example =
    collect_gen_files-IsRound small_tools two_nodes [] 5 (10 ∷ 20 ∷ []) (1 ∷ 2 ∷ []) first_config []
      two_collected 1 0 small_tools-keeps refl refl
