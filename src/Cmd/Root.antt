-- ===== src/Cmd/Root.antt =====
-- `NewRootCmd`, its PersistentPreRunE and `ProvideClientContext` (cmd/tatcoind/cmd/root.go), with the
-- configurations of cmd/tatcoind/cmd/config.go, and `main` (cmd/tatcoind/main.go).
pub mod Modules
pub mod Shared
mod Runs
use Prim.Native.String.{String, ◌++◌}
use tatcoin.Base.{Option, none, some, List, [], ◌∷◌, Bool, true, if◌then◌else◌}
use tatcoin.Keeper.Sdk.{Outcome, ok, err}
use tatcoin.App.Run.{Run, done, panics, ◌>>=◌}
use tatcoin.App.Wiring.Config.{Name, ModuleConfig, app_config, app_name}
use tatcoin.App.Wiring.Names.{same}
use tatcoin.App.Wiring.IbcSdk.{IbcModule}
use tatcoin.App.Wiring.Ibc.{Keepers}
use tatcoin.App.Wiring.Build.{or_panic}
use tatcoin.App.Wiring.Client.{register_ibc}
use tatcoin.Cmd.Commands.{RootCmd, init_root_cmd}

-- A Go map with names as its keys.
abbrev pub Table : Type 0 → Type 0
Table A = List (Name × A)

pub find_name : {A : Type 0} → Name → Table A → Option A
find_name n [] = none
find_name n ((m, a) ∷ t) = let rest = find_name n t in if same n m then some a else rest

-- `autocli.AppOptions`, the field that is set and the others.
pub record CliOptions (M Rest : Type 0) : Type 0 where
  pub modules : Table M
  pub rest : Rest

-- What `ProvideClientContext` is given.
pub record Provided (Cdc Registry TxOptions Amino : Type 0) : Type 0 where
  pub app_codec : Cdc
  pub interface_registry : Registry
  pub tx_config_opts : TxOptions
  pub legacy_amino : Amino

-- What the context of the client takes from the SDK; `Tx` is a configuration of transactions. Reading the
-- configuration of the client reads the files `W`, and creates those that are missing.
pub record ContextSdk (E W Ctx Cdc Registry TxOptions Amino Tx : Type 0) : Type 0 where
  pub empty_context : Ctx
  pub with_codec : Cdc → Ctx → Ctx
  pub with_interface_registry : Registry → Ctx → Ctx
  pub with_legacy_amino : Amino → Ctx → Ctx
  pub with_stdin : Ctx → Ctx
  pub with_account_retriever : Ctx → Ctx
  pub with_home_dir : String → Ctx → Ctx
  pub with_viper : String → Ctx → Ctx
  pub with_tx_config : Tx → Ctx → Ctx
  pub read_from_client_config : Ctx → W → (Ctx × Option E) × W
  pub set_textual_query : Ctx → TxOptions → TxOptions
  pub codec : Ctx → Cdc
  pub registry : Cdc → Registry
  pub tx_config : Ctx → Tx
  pub new_tx_config_with_options : Cdc → TxOptions → Outcome E Tx

module _ {E W Ctx Cdc Registry TxOptions Amino Tx : Type 0}
    (sdk : ContextSdk E W Ctx Cdc Registry TxOptions Amino Tx) (home : String) where
  -- `ProvideClientContext`: the error of reading the configuration is dropped.
  unfoldable pub provide_client_context : Provided Cdc Registry TxOptions Amino → W → Run (Ctx × W)
  provide_client_context given w =
      let first = sdk.with_viper app_name (
        sdk.with_home_dir home (
          sdk.with_account_retriever (
            sdk.with_stdin (
              sdk.with_legacy_amino given.legacy_amino (
                sdk.with_interface_registry given.interface_registry
                  (sdk.with_codec given.app_codec sdk.empty_context)))))) in
      let ((ctx, dropped), w') = sdk.read_from_client_config first w in
      let opts = sdk.set_textual_query ctx given.tx_config_opts in
      or_panic (sdk.new_tx_config_with_options (sdk.codec ctx) opts) >>= λ tx_config.
      done (sdk.with_tx_config tx_config ctx, w')

-- A command that runs, and what the preparation of a run takes from cobra and the SDK; `Conf` is a
-- configuration of the server, `Comet` one of CometBFT. Intercepting the configurations reads the files and
-- creates those that are missing.
pub record RunSdk (E W Ctx Cmd GoCtx Conf Comet : Type 0) : Type 0 where
  pub set_out : Cmd → Cmd
  pub set_err : Cmd → Cmd
  pub cmd_context : Cmd → GoCtx
  pub with_cmd_context : GoCtx → Ctx → Ctx
  pub read_persistent_command_flags : Ctx → Cmd → Outcome E Ctx
  pub set_cmd_client_context_handler : Ctx → Cmd → Outcome E Cmd
  pub default_config_template : String
  pub default_config : Conf
  pub default_comet_config : Comet
  pub intercept_configs_pre_run : Cmd → String → Conf → Comet → W → Outcome E Cmd × W

-- `initAppConfig`: the template and the configuration of the server, which are the defaults.
abbrev pub init_app_config :
    {E W Ctx Cmd GoCtx Conf Comet : Type 0} → RunSdk E W Ctx Cmd GoCtx Conf Comet → String × Conf
init_app_config run = (run.default_config_template, run.default_config)

-- `initCometBFTConfig`
abbrev pub init_comet_bft_config :
    {E W Ctx Cmd GoCtx Conf Comet : Type 0} → RunSdk E W Ctx Cmd GoCtx Conf Comet → Comet
init_comet_bft_config run = run.default_comet_config

infixl 5 ◌>>>=◌
abbrev pub ◌>>>=◌ :
    {E W A B : Type 0} → Outcome E A × W → (A → W → Outcome E B × W) → Outcome E B × W
(ok a, w) >>>= f = f a w
(err e, w) >>>= f = (err e, w)

-- A pair of a value and an error.
abbrev pub without_error : {E W A : Type 0} → (A × Option E) × W → Outcome E A × W
without_error ((a, none), w) = (ok a, w)
without_error ((a, some e), w) = (err e, w)

module _ {E W Ctx Cdc Registry TxOptions Amino Tx Cmd GoCtx Conf Comet : Type 0}
    (sdk : ContextSdk E W Ctx Cdc Registry TxOptions Amino Tx)
    (run : RunSdk E W Ctx Cmd GoCtx Conf Comet) where
  -- What `PersistentPreRunE` leaves in the variable that it shares with its other runs: the context with the
  -- command's, before the flags are read.
  abbrev pub shared_context : Ctx → Cmd → Ctx
  shared_context ctx cmd = sdk.with_viper app_name (run.with_cmd_context (run.cmd_context cmd) ctx)

  -- `PersistentPreRunE`: the command after it or its error and the files, and the shared variable.
  unfoldable pub persistent_pre_run : Ctx → Cmd → W → (Outcome E Cmd × W) × Ctx
  persistent_pre_run ctx cmd0 w =
      let cmd = run.set_err (run.set_out cmd0) in
      let ctx0 = shared_context ctx cmd in
      let (template, conf) = init_app_config run in
      (
        (run.read_persistent_command_flags ctx0 cmd, w) >>>= λ ctx1 w1.
            without_error (sdk.read_from_client_config ctx1 w1) >>>= λ ctx2 w2.
            (run.set_cmd_client_context_handler ctx2 cmd, w2) >>>= λ cmd' w3.
            run.intercept_configs_pre_run cmd' template conf (init_comet_bft_config run) w3,
        ctx0,
      )

-- What `NewRootCmd` takes from depinject and autocli, beside the context.
pub record RootSdk (E W Ctx Cdc Registry TxOptions Amino B M Rest Tx X : Type 0) : Type 0 where
  pub inject :
      List ModuleConfig
      → (Provided Cdc Registry TxOptions Amino → W → Run (Ctx × W))
      → W
      → Run (Outcome E (CliOptions M Rest × (Table B × Ctx)) × W)
  pub enhance_root_command :
      CliOptions M Rest → RootCmd (Table B) Tx X → Outcome E (RootCmd (Table B) Tx X)
  pub add_start_commands : String → RootCmd (Table B) Tx X → RootCmd (Table B) Tx X

module _ {E W Ctx Cdc Registry TxOptions Amino B M Rest Tx X : Type 0}
    (sdk : ContextSdk E W Ctx Cdc Registry TxOptions Amino Tx)
    (root : RootSdk E W Ctx Cdc Registry TxOptions Amino B M Rest Tx X)
    {Ibc Transfer Host Controller P : Type 0} (empty : Keepers Ibc Transfer Host Controller)
    (no_store : P) (is_basic : IbcModule Ibc Transfer Host Controller P → Bool)
    (register_interfaces : IbcModule Ibc Transfer Host Controller P → Registry → Run Registry)
    (core_adaptor : Name → IbcModule Ibc Transfer Host Controller P → B)
    (as_module : IbcModule Ibc Transfer Host Controller P → M) (home : String) where
  -- The loop over the modules of IBC: an entry of each for the basic manager and the options.
  unfoldable pub add_modules :
      List (Name × IbcModule Ibc Transfer Host Controller P)
      → Table B × CliOptions M Rest
      → Table B × CliOptions M Rest
  add_modules [] t = t
  add_modules ((n, m) ∷ ms) (basics, cli) =
      add_modules ms
        ((n, core_adaptor n m) ∷ basics, record cli { modules = (n, as_module m) ∷ cli.modules })

  -- `NewRootCmd`: the root command, the context that its PersistentPreRunE starts from, and the files.
  unfoldable pub new_root_cmd : W → Run ((RootCmd (Table B) Tx X × Ctx) × W)
  unfolding provide_client_context register_ibc add_modules init_root_cmd
  new_root_cmd w = do
    (injected, w') ← root.inject app_config (provide_client_context sdk home) w
    (cli, (basics, ctx)) ← or_panic injected
    (modules, registry) ←
        register_ibc empty no_store is_basic register_interfaces (sdk.registry (sdk.codec ctx))
    let (basics', cli') = add_modules modules (basics, cli)
    let made =
        init_root_cmd home root.add_start_commands
          (record {
            use_line = app_name ++ "d";
            short = "tatcore node";
            silence_errors = true;
            commands = [];
          })
          (sdk.tx_config ctx) basics'
    enhanced ← or_panic (root.enhance_root_command cli' made)
    done ((enhanced, ctx), w')

-- How the process ends: with the status 0, with the error printed and the status 1, or in a panic.
pub data Exit (E : Type 0) : Type 0 where
  exit_zero crashed : Exit E
  exit_one : E → Exit E

-- `main`, where `execute` is `svrcmd.Execute` on the command, the prefix of the environment and the home.
unfoldable pub main :
    {E Root : Type 0} → Run Root → (Root → String → String → Option E) → String → String → Exit E
main panics execute env_prefix home = crashed
main (done root) execute env_prefix home = elim (execute root env_prefix home) [
  | none ↦ exit_zero
  | some e ↦ exit_one e
]
