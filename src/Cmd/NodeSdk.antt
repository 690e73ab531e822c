-- ===== src/Cmd/NodeSdk.antt =====
-- What the loop of `initTestnetFiles` takes from the SDK, CometBFT and the file system, and the texts it
-- writes (cmd/tatcoind/cmd/testnet_multi_node.go).
use Prim.Native.String.{String}
use tatcoin.Base.{ℕ, Option, none, some, List, [], ◌∷◌, Bool}
use tatcoin.Keeper.Sdk.{Outcome, ok, err}
use tatcoin.App.Ended.{Ended, went_on, returned, panics}
use tatcoin.Cmd.Flags.{Text, Map}
use tatcoin.Cmd.Collect.{Args, Config}

-- "key_seed.json"
abbrev pub key_seed_json : Text
key_seed_json = 107 ∷ 101 ∷ 121 ∷ 95 ∷ 115 ∷ 101 ∷ 101 ∷ 100 ∷ 46 ∷ 106 ∷ 115 ∷ 111 ∷ 110 ∷ []

-- "gentx-"
abbrev pub gentx_prefix : Text
gentx_prefix = 103 ∷ 101 ∷ 110 ∷ 116 ∷ 120 ∷ 45 ∷ []

-- ".json"
abbrev pub json_suffix : Text
json_suffix = 46 ∷ 106 ∷ 115 ∷ 111 ∷ 110 ∷ []

-- "@"
abbrev pub at_sign : Text
at_sign = 64 ∷ []

-- ","
abbrev pub comma : Text
comma = 44 ∷ []

-- "app.toml"
abbrev pub app_toml : Text
app_toml = 97 ∷ 112 ∷ 112 ∷ 46 ∷ 116 ∷ 111 ∷ 109 ∷ 108 ∷ []

-- "tcp://localhost:"
abbrev pub localhost : Text
localhost =
    116 ∷ 99 ∷ 112 ∷ 58 ∷ 47 ∷ 47 ∷ 108 ∷ 111 ∷ 99 ∷ 97 ∷ 108 ∷ 104 ∷ 111 ∷ 115 ∷ 116 ∷ 58 ∷ []

-- "chain-"
abbrev pub chain_prefix : Text
chain_prefix = 99 ∷ 104 ∷ 97 ∷ 105 ∷ 110 ∷ 45 ∷ []

-- Code over the files `W` that may return early with an error or panic.
abbrev pub Prog : Type 0 → Type 0 → Type 0 → Type 0
Prog E W A = W → Ended (E × W) (A × W)

abbrev pub then_run :
    {E W A B : Type 0} → (A → Prog E W B) → Ended (E × W) (A × W) → Ended (E × W) (B × W)
then_run next (went_on (a, w)) = next a w
then_run next (returned e) = returned e
then_run next panics = panics

infixl 5 ◌>>=◌
abbrev pub ◌>>=◌ : {E W A B : Type 0} → Prog E W A → (A → Prog E W B) → Prog E W B
(m >>= next) w = then_run next (m w)

infixl 5 ◌>>◌
abbrev pub ◌>>◌ : {E W B : Type 0} → Prog E W (Unit {0}) → Prog E W B → Prog E W B
m >> next = m >>= λ _. next

abbrev pub give : {E W A : Type 0} → A → Prog E W A
give a w = went_on (a, w)

-- `if err != nil { clean; return err }`
abbrev pub or_clean : {E W A : Type 0} → (W → W) → Outcome E A × W → Ended (E × W) (A × W)
or_clean clean (ok a, w) = went_on (a, w)
or_clean clean (err e, w) = returned (e, clean w)

abbrev pub try_clean : {E W A : Type 0} → (W → W) → (W → Outcome E A × W) → Prog E W A
try_clean clean step w = or_clean clean (step w)

-- `if err != nil { return err }`
abbrev pub try_step : {E W A : Type 0} → (W → Outcome E A × W) → Prog E W A
try_step step = try_clean (λ w. w) step

abbrev pub try_pure : {E W A : Type 0} → Outcome E A → Prog E W A
try_pure r = try_step (λ w. (r, w))

-- The result of a call that gives only an error.
abbrev pub as_outcome : {E W : Type 0} → Option E × W → Outcome E (Unit {0}) × W
as_outcome (none, w) = (ok tt, w)
as_outcome (some e, w) = (err e, w)

-- A call that changes the files and gives nothing back.
abbrev pub change : {E W : Type 0} → (W → W) → Prog E W (Unit {0})
change f w = went_on (tt, f w)

-- `initArgs`; the arguments that the collecting uses are `shared`.
pub record InitArgs (Coin : Type 0) : Type 0 where
  pub shared : Args
  pub algo : Text
  pub keyring_backend : Text
  pub min_gas_prices : Text
  pub starting_ip_address : Text
  pub validators_stakes_amount : Map Coin

-- `srvconfig.Config`, the fields that are set; `rest` is what stays as in `DefaultConfig`.
pub record AppConfig (Rest : Type 0) : Type 0 where
  pub min_gas_prices : Text
  pub base_min_gas_prices : String
  pub api_enable : Bool
  pub enable_hostname_label : Bool
  pub telemetry_enabled : Bool
  pub prometheus_retention_time : ℕ
  pub grpc_address : Text
  pub api_address : Text
  pub rest : Rest

-- `banktypes.Balance`
pub record Balance (Coin : Type 0) : Type 0 where
  pub address : Text
  pub coins : List Coin

-- `T` is a transaction with its builder, `M` a message; the account is `NewBaseAccount(addr, nil, 0, 0)`.
pub record NodeSdk (E W Rest AppRest Key Keyring Addr Algo Coin M T Account Bytes : Type 0)
    : Type 0 where
  pub mkdir_all : Text → W → Option E × W
  pub remove_all : Text → W → W
  pub write_os_file : Text → Bytes → W → Option E × W
  pub initialize_node_validator_files : Config Rest → W → Outcome E (Text × Key) × W
  pub new_keyring : Text → Text → W → Outcome E Keyring × W
  pub signing_algo : Text → Keyring → Outcome E Algo
  pub generate_save_coin_key : Keyring → Text → Algo → W → Outcome E (Addr × Text) × W
  pub marshal_secret : Text → Outcome E Bytes
  pub tokens_from_consensus_power : ℕ → ℕ
  pub new_coin : String → ℕ → Coin
  pub sort_coins : List Coin → List Coin
  pub addr_text : Addr → Text
  pub val_addr_text : Addr → Text
  pub base_account : Addr → Account
  pub new_msg_create_validator : Text → Key → Coin → Text → Outcome E M
  pub set_msgs : M → Outcome E T
  pub set_memo : Text → T → T
  pub sign : Keyring → Text → Text → Text → T → Outcome E T
  pub encode_json : T → Outcome E Bytes
  pub write_config_file : Text → AppConfig AppRest → W → W
