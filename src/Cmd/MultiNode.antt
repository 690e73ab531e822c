-- ===== src/Cmd/MultiNode.antt =====
-- `NewTestnetMultiNodeCmd` (cmd/tatcoind/cmd/testnet_multi_node.go): the flags of `multi-node` and its
-- RunE, which reads them and calls `initTestnetFiles`. A RunE that has no error ends in the configuration.
pub mod Calm
pub mod Panic
mod Runs
use Prim.Native.String.{String}
use text.Mathlib.Text.{◌==◌}
use tatcoin.Base.{ℕ, ◌^◌, Option, List, [], ◌∷◌, ◌++◌, leb, if◌then◌else◌}
use tatcoin.Keeper.Sdk.{Outcome, ok, err}
use tatcoin.App.Run.{Run, done, ◌>>=◌}
use tatcoin.Cmd.Flags.{Text, Map, read_stakes, read_ports}
use tatcoin.Cmd.Collect.{Config, Tools}
use tatcoin.Cmd.Paths.{Os}
use tatcoin.Cmd.NodeSdk.{Prog, ◌>>=◌ as ◌>>>=◌, try_pure, InitArgs, AppConfig, NodeSdk}
use tatcoin.Cmd.GenFiles.{GenSdk, must}
use tatcoin.Cmd.Testnet.{init_testnet_files}

-- The names of flags that the SDK has, and the name of its default key type.
pub record SdkNames : Type 0 where
  pub keyring_backend : String
  pub chain_id : String
  pub min_gas_prices : String
  pub key_type : String
  pub secp256k1 : String

abbrev pub flag_node_dir_prefix : String
flag_node_dir_prefix = "node-dir-prefix"

abbrev pub flag_ports : String
flag_ports = "list-ports"

abbrev pub flag_num_validators : String
flag_num_validators = "v"

abbrev pub flag_output_dir : String
flag_output_dir = "output-dir"

abbrev pub flag_validators_stake_amount : String
flag_validators_stake_amount = "validators-stake-amount"

abbrev pub flag_starting_ip_address : String
flag_starting_ip_address = "starting-ip-address"

-- The default of a flag.
pub data Default : Type 0 where
  text_default : String → Default
  int_default : ℕ → Default

-- `addTestnetFlagsToCmd`
abbrev pub testnet_flags : SdkNames → List (String × Default)
testnet_flags names =
    (flag_num_validators, int_default 4)
    ∷ (flag_output_dir, text_default "./.testnets")
    ∷ (names.chain_id, text_default "")
    ∷ (names.min_gas_prices, text_default "0.0001stake")
    ∷ (names.key_type, text_default names.secp256k1)
    ∷ []

-- Its `SetNormalizeFunc`: the old name of a flag.
unfoldable pub normalize : SdkNames → String → String
normalize names name = if name == "algo" then names.key_type else name

-- The flags of the command.
abbrev pub multi_node_flags : SdkNames → List (String × Default)
multi_node_flags names =
    testnet_flags names
    ++ ((flag_ports, text_default "")
        ∷ (flag_node_dir_prefix, text_default "validator")
        ∷ (flag_validators_stake_amount, text_default "100000000,100000000,100000000,100000000")
        ∷ (flag_starting_ip_address, text_default "localhost")
        ∷ (names.keyring_backend, text_default "test")
        ∷ [])

-- `cmd.Flags()`
pub record FlagSet (E : Type 0) : Type 0 where
  pub get_string : String → Outcome E Text
  pub get_int : String → Outcome E ℕ

-- `v, _ :=`
abbrev pub text_of : {E : Type 0} → Outcome E Text → Text
text_of (ok s) = s
text_of (err e) = []

abbrev pub int_of : {E : Type 0} → Outcome E ℕ → ℕ
int_of (ok n) = n
int_of (err e) = 0

-- The loop_rounds of `for i := 0; i < n; i++`
abbrev pub loop_rounds : ℕ → ℕ
loop_rounds n = if leb (2 ^ 63) n then 0 else n

module _ {E N Coin : Type 0} (names : SdkNames) (new_int_from_string : Text → Option N)
    (new_coin : N → Run Coin) where
  -- `if s, err := GetString(flagValidatorsStakeAmount); err == nil`
  unfoldable pub stakes_of : Outcome E Text → Run (Map Coin)
  unfolding read_stakes
  stakes_of (err e) = done []
  stakes_of (ok s) = read_stakes new_int_from_string new_coin s

  -- `if s, err := GetString(flagPorts); err == nil`
  abbrev pub ports_of : ℕ → Outcome E Text → Map Text
  ports_of n (err e) = []
  ports_of n (ok s) = read_ports s (loop_rounds n)

  -- The arguments that RunE makes of the flags.
  unfoldable pub read_args : FlagSet E → Run (InitArgs Coin)
  unfolding stakes_of
  read_args flags =
      let n = int_of (flags.get_int flag_num_validators) in
      stakes_of (flags.get_string flag_validators_stake_amount) >>= λ stakes. done (record {
        shared = record {
          chain_id = text_of (flags.get_string names.chain_id);
          output_dir = text_of (flags.get_string flag_output_dir);
          node_dir_prefix = text_of (flags.get_string flag_node_dir_prefix);
          num_validators = n;
          ports = ports_of n (flags.get_string flag_ports);
        };
        algo = text_of (flags.get_string names.key_type);
        keyring_backend = text_of (flags.get_string names.keyring_backend);
        min_gas_prices = text_of (flags.get_string names.min_gas_prices);
        starting_ip_address = text_of (flags.get_string flag_starting_ip_address);
        validators_stakes_amount = stakes;
      })

  module _ {W Rest AppRest Key Keyring Addr Algo M T Account Bytes : Type 0}
      (sdk : NodeSdk E W Rest AppRest Key Keyring Addr Algo Coin M T Account Bytes)
      {Genesis G Time : Type 0} (tools : Tools E W Rest Text Key Genesis G Time)
      {J Json GenRest AuthRest BankRest Packed : Type 0}
      (gen : GenSdk E W J Json GenRest AuthRest BankRest Account Packed Coin) {Contents : Type 0}
      (os : Os E W Contents) where
    -- `RunE`; `ctx` is what `GetClientQueryContext` gives, `config` that of the server's context;
    -- `max_slice` is the length of the longest slice of texts or of keys.
    unfoldable pub multi_node_run :
        {Ctx : Type 0}
        → Outcome E Ctx
        → FlagSet E
        → ℕ
        → List ℕ
        → Time
        → Config Rest
        → AppConfig AppRest
        → Prog E W (Config Rest)
    unfolding read_args init_testnet_files
    multi_node_run ctx flags max_slice draws now config app_config = try_pure ctx >>>= λ client_ctx.
        must (read_args flags) >>>= λ args.
        init_testnet_files sdk tools gen os max_slice draws args now config app_config
