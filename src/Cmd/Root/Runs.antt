-- ===== src/Cmd/Root/Runs.antt =====
-- The theorems on the root command at a small SDK: what it holds is counted.
use tatcoin.Base.{ℕ, ◌+◌, ◌≡◌, refl, none, [], ◌∷◌, true, false}
use tatcoin.Keeper.Sdk.{ok}
use tatcoin.App.Run.{Run, done, panics, ◌>>=◌, each}
use tatcoin.App.Wiring.Config.{Name}
use tatcoin.App.Wiring.Ibc.{Keepers}
use tatcoin.App.Wiring.Client.{register_ibc}
use tatcoin.Cmd.Commands.{RootCmd, init_root_cmd}
use tatcoin.Cmd.Root.{
  Table, ContextSdk, RunSdk, RootSdk, CliOptions, provide_client_context, add_modules, new_root_cmd,
  persistent_pre_run,
}
use tatcoin.Cmd.Root.Modules.{IsMade, new_root_cmd-IsMade}
use tatcoin.Cmd.Root.Shared.{after_runs, persistent_pre_run-after_runs}

-- A context is its Go context and the number of settings after it.
abbrev Pair : Type 0
Pair = ℕ × ℕ

abbrev small_context : ContextSdk ℕ ℕ Pair ℕ ℕ ℕ ℕ ℕ
small_context = record {
  empty_context = (0, 0);
  with_codec = λ c ctx. ctx;
  with_interface_registry = λ r ctx. ctx;
  with_legacy_amino = λ a ctx. ctx;
  with_stdin = λ ctx. ctx;
  with_account_retriever = λ ctx. ctx;
  with_home_dir = λ home ctx. ctx;
  with_viper = λ name ctx. (ctx.0, 1);
  with_tx_config = λ tx ctx. (ctx.0, tx);
  read_from_client_config = λ ctx w. ((ctx, none), w + ctx.1);
  set_textual_query = λ ctx opts. opts + 1;
  codec = λ ctx. 7;
  registry = λ cdc. cdc + 1;
  tx_config = λ ctx. ctx.1;
  new_tx_config_with_options = λ cdc opts. ok (cdc + opts);
}

-- A command is its Go context; reading the flags counts in the context.
abbrev small_run : RunSdk ℕ ℕ Pair ℕ ℕ ℕ ℕ
small_run = record {
  set_out = λ cmd. cmd;
  set_err = λ cmd. cmd;
  cmd_context = λ cmd. cmd;
  with_cmd_context = λ go ctx. (go, 0);
  read_persistent_command_flags = λ ctx cmd. ok (ctx.0, ctx.1 + 5);
  set_cmd_client_context_handler = λ ctx cmd. ok (cmd + ctx.1);
  default_config_template = "template";
  default_config = 3;
  default_comet_config = 4;
  intercept_configs_pre_run = λ cmd template conf comet w. (ok (cmd + w), w);
}

abbrev Tree : Type 0
Tree = RootCmd (Table ℕ) ℕ ℕ

abbrev cli : CliOptions ℕ ℕ
cli = record { modules = (Name.bank, 30) ∷ []; rest = 0 }

abbrev small_root : RootSdk ℕ ℕ Pair ℕ ℕ ℕ ℕ ℕ ℕ ℕ ℕ ℕ
small_root = record {
  inject = λ modules provide w.
      provide
        (record { app_codec = 0; interface_registry = 0; tx_config_opts = 2; legacy_amino = 0 }) w
      >>= λ made. done (ok (cli, ((Name.bank, 20) ∷ [], made.0)), made.1);
  enhance_root_command = λ options tree. ok tree;
  add_start_commands = λ home tree. tree;
}

abbrev no_keepers : Keepers ℕ ℕ ℕ ℕ
no_keepers = record { ibc = 0; transfer = 0; host = 0; controller = 0 }

abbrev no_store : ℕ
no_store = 6

abbrev tree_or : (Tree × Pair) × ℕ → Run ((Tree × Pair) × ℕ) → (Tree × Pair) × ℕ
tree_or other (done made) = made
tree_or other panics = other

abbrev nothing : (Tree × Pair) × ℕ
nothing = ((record { use_line = ""; short = ""; silence_errors = false; commands = [] }, (0, 0)), 0)

abbrev made : (Tree × Pair) × ℕ
made = tree_or nothing (
    new_root_cmd small_context small_root no_keepers no_store (λ m. true) (λ m r. done (r + 1))
      (λ n m. 40) (λ m. 50) "home" 1)

new_root_cmd-IsMade_example :
    IsMade small_context small_root no_keepers no_store
      (λ m. true)
      (λ m r. done (r + 1))
      (λ n m. 40)
      (λ m. 50)
      "home"
      1
      made.0
      made.1
unfolding new_root_cmd provide_client_context register_ibc add_modules init_root_cmd each
new_root_cmd-IsMade_example =
    new_root_cmd-IsMade small_context small_root no_keepers no_store (λ m. true)
      (λ m r. done (r + 1)) (λ n m. 40) (λ m. 50) "home" 1 made.0 made.1 refl

persistent_pre_run-after_runs_example :
    (let (ctx', w') = after_runs small_context small_run (2, 8) 6 (9 ∷ 4 ∷ []) in
      persistent_pre_run small_context small_run ctx' 3 w'
      ≡ persistent_pre_run small_context small_run (2, 8) 3 w')
persistent_pre_run-after_runs_example =
    persistent_pre_run-after_runs small_context small_run (9 ∷ 4 ∷ []) (2, 8) 6 3 (λ a b ctx. refl)
