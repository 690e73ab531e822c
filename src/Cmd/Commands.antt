-- ===== src/Cmd/Commands.antt =====
-- The tree of commands: `initRootCmd`, `queryCommand` and `txCommand` (cmd/tatcoind/cmd/commands.go). `B`
-- is the basic manager, `Tx` the configuration of transactions, `X` a command that only the SDK makes.
use Prim.Native.String.{String}
use tatcoin.Base.{ℕ, List, [], ◌∷◌, ◌++◌, Bool, false}

pub data QueryCommand : Type 0 where
  wait_tx validator block txs_by_events blocks tx block_results : QueryCommand

pub data TxCommand : Type 0 where
  sign sign_batch multi_sign multi_sign_batch validate_signatures line_break broadcast : TxCommand
  encode decode simulate : TxCommand

-- A `cobra.Command` that holds others, and runs the SDK's `ValidateCmd`.
pub record Parent (A : Type 0) : Type 0 where
  pub use_line : String
  pub aliases : List String
  pub short : String
  pub disable_flag_parsing : Bool
  pub suggestions_minimum_distance : ℕ
  pub commands : List A

pub data Command (B Tx X : Type 0) : Type 0 where
  init_cmd : B → String → Command B Tx X
  in_place_testnet debug config snapshot status keys : Command B Tx X
  multi_node : B → Command B Tx X
  pruning : String → Command B Tx X
  genesis : Tx → B → String → Command B Tx X
  query_cmd : Parent QueryCommand → Command B Tx X
  tx_cmd : Parent TxCommand → Command B Tx X
  of_sdk : X → Command B Tx X

-- `cobra.Command`, the fields that are set.
pub record RootCmd (B Tx X : Type 0) : Type 0 where
  pub use_line : String
  pub short : String
  pub silence_errors : Bool
  pub commands : List (Command B Tx X)

-- `AddCommand`
abbrev pub add_command : {B Tx X : Type 0} → List (Command B Tx X) → RootCmd B Tx X → RootCmd B Tx X
add_command cs root = record root { commands = root.commands ++ cs }

-- `queryCommand`
abbrev pub query_command : Parent QueryCommand
query_command = record {
  use_line = "query";
  aliases = "q" ∷ [];
  short = "Querying subcommands";
  disable_flag_parsing = false;
  suggestions_minimum_distance = 2;
  commands =
      QueryCommand.wait_tx ∷ QueryCommand.validator ∷ QueryCommand.block
      ∷ QueryCommand.txs_by_events ∷ QueryCommand.blocks ∷ QueryCommand.tx
      ∷ QueryCommand.block_results ∷ [];
}

-- `txCommand`
abbrev pub tx_command : Parent TxCommand
tx_command = record {
  use_line = "tx";
  aliases = [];
  short = "Transactions subcommands";
  disable_flag_parsing = false;
  suggestions_minimum_distance = 2;
  commands =
      TxCommand.sign ∷ TxCommand.sign_batch ∷ TxCommand.multi_sign ∷ TxCommand.multi_sign_batch
      ∷ TxCommand.validate_signatures ∷ TxCommand.line_break ∷ TxCommand.broadcast
      ∷ TxCommand.encode ∷ TxCommand.decode ∷ TxCommand.simulate ∷ [];
}

module _ {B Tx X : Type 0} (home : String)
    (add_start_commands : String → RootCmd B Tx X → RootCmd B Tx X) where
  -- `initRootCmd`; `add_start_commands` is the SDK's, and `addModuleInitFlags` adds no flag.
  unfoldable pub init_root_cmd : RootCmd B Tx X → Tx → B → RootCmd B Tx X
  init_root_cmd root tx_config basics =
      let first =
        add_command
          (init_cmd basics home
            ∷ in_place_testnet
            ∷ multi_node basics
            ∷ debug
            ∷ config
            ∷ pruning home
            ∷ snapshot
            ∷ [])
          root in
      add_command
        (status
          ∷ genesis tx_config basics home
          ∷ query_cmd query_command
          ∷ tx_cmd tx_command
          ∷ keys
          ∷ [])
        (add_start_commands home first)
