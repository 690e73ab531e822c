-- ===== src/App/Wiring/Start.antt =====
-- What runs before and beside `New`: the two `init` functions (app/app.go, app/config.go), the API routes and
-- the accessors of the app (app/app.go, app/ibc.go).
use Prim.Native.String.{String, ◌++◌}
use tatcoin.Base.{ℕ, Option, none, some, List, true}
use tatcoin.Keeper.Sdk.{Outcome}
use tatcoin.App.Run.{Run, done, panics, ◌>>=◌}
use tatcoin.App.Wiring.Config.{app_name, account_address_prefix}
use tatcoin.App.Wiring.IbcSdk.{IbcSdk}
use tatcoin.App.Wiring.Ibc.{Keepers}
use tatcoin.App.Wiring.Build.{AppSdk, App, or_panic, new_app}

-- `ChainCoinType`
abbrev pub chain_coin_type : ℕ
chain_coin_type = 118

-- `init` of app.go: the prefix of the environment and the home of a node.
unfoldable pub init_home : {E : Type 0} → (String → Outcome E String) → Run (String × String)
init_home get_node_home_directory =
    or_panic (get_node_home_directory ("." ++ app_name)) >>= λ home. done (app_name, home)

-- The setters of the SDK's configuration `C`.
pub record ConfigSdk (C : Type 0) : Type 0 where
  pub set_default_bond_denom : String → C → C
  pub set_coin_type : ℕ → C → C
  pub set_prefix_for_account : String → String → C → C
  pub set_prefix_for_validator : String → String → C → C
  pub set_prefix_for_consensus_node : String → String → C → C
  pub seal : C → C

-- `init` of config.go
unfoldable pub init_config : {C : Type 0} → ConfigSdk C → C → C
init_config sdk c0 =
    let c1 = sdk.set_default_bond_denom "stake" c0 in
    let account_pub_key_prefix = account_address_prefix ++ "pub" in
    let validator_address_prefix = account_address_prefix ++ "valoper" in
    let validator_pub_key_prefix = account_address_prefix ++ "valoperpub" in
    let cons_node_address_prefix = account_address_prefix ++ "valcons" in
    let cons_node_pub_key_prefix = account_address_prefix ++ "valconspub" in
    let c2 = sdk.set_coin_type chain_coin_type c1 in
    let c3 = sdk.set_prefix_for_account account_address_prefix account_pub_key_prefix c2 in
    let c4 = sdk.set_prefix_for_validator validator_address_prefix validator_pub_key_prefix c3 in
    let c5 =
      sdk.set_prefix_for_consensus_node cons_node_address_prefix cons_node_pub_key_prefix c4 in
    sdk.seal c5

-- `RegisterAPIRoutes`, over the server of the API: the runtime's routes, swagger or a panic, and OpenAPI.
unfoldable pub register_api_routes :
    {E Server : Type 0}
    → (Server → Server)
    → (Server → Server × Option E)
    → (String → Server → Server)
    → Server
    → Run Server
register_api_routes runtime_routes register_swagger_api register_open_api_service server =
    let (server', error) = register_swagger_api (runtime_routes server) in
    elim error [ some e ↦ panics | none ↦ done (register_open_api_service app_name server') ]

-- `GetIBCKeeper`
abbrev pub get_ibc_keeper :
    {A Ibc Transfer Host Controller : Type 0} → App A (Keepers Ibc Transfer Host Controller) → Ibc
get_ibc_keeper app = app.keepers.ibc

-- `newApp` (cmd/tatcoind/cmd/commands.go): the latest version is loaded, over the default options.
unfoldable pub new_application :
    {E A O Opts V W Req Res : Type 0}
    → AppSdk E A O Opts V W Req Res
    → {Key Table Subspace Ibc Transfer Host Controller Router RouterV2 P : Type 0}
    → IbcSdk E A Key Table Subspace Ibc Transfer Host Controller Router RouterV2 P
    → (Opts → List O)
    → Opts
    → Run (App A (Keepers Ibc Transfer Host Controller))
unfolding new_app
new_application sdk ibc default_baseapp_options app_opts =
    new_app sdk ibc app_opts (default_baseapp_options app_opts) true
