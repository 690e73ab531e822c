-- ===== src/Cmd/Root/Shared.antt =====
-- The context that the runs of PersistentPreRunE share (cmd/tatcoind/cmd/root.go).
use tatcoin.Base.{◌≡◌, refl, ◌∙◌, List, [], ◌∷◌}
use tatcoin.App.Wiring.Config.{app_name}
use tatcoin.Cmd.Root.{ContextSdk, RunSdk, persistent_pre_run}

module _ {E W Ctx Cdc Registry TxOptions Amino Tx Cmd GoCtx Conf Comet : Type 0}
    (sdk : ContextSdk E W Ctx Cdc Registry TxOptions Amino Tx)
    (run : RunSdk E W Ctx Cmd GoCtx Conf Comet) where
  -- What the SDK documents of a context: setting the Go context and viper again replaces them.
  abbrev pub Replaces : Type 0
  Replaces =
      (a b : GoCtx) (ctx : Ctx)
      → sdk.with_viper app_name
          (run.with_cmd_context b (sdk.with_viper app_name (run.with_cmd_context a ctx)))
        ≡ sdk.with_viper app_name (run.with_cmd_context b ctx)

  -- The shared variable and the files after some runs.
  pub after_runs : Ctx → W → List Cmd → Ctx × W
  after_runs ctx w [] = (ctx, w)
  after_runs ctx w (cmd ∷ cmds) =
      let ((answer, w'), ctx') = persistent_pre_run sdk run ctx cmd w in after_runs ctx' w' cmds

  one_run :
      (ctx : Ctx) (w w' : W) (cmd cmd' : Cmd)
      → Replaces
      → persistent_pre_run sdk run (persistent_pre_run sdk run ctx cmd w).1 cmd' w'
        ≡ persistent_pre_run sdk run ctx cmd' w'
  unfolding persistent_pre_run
  one_run ctx w w' cmd cmd' law = rw (law _ _ ctx) refl

  -- A run of PersistentPreRunE after other runs, whatever their commands, flags and errors were, gives what
  -- it gives as the first run over the files that they left, and leaves the same shared context: what one
  -- run hands to another, it hands on in files; setting the Go context and viper again replaces them.
  pub persistent_pre_run-after_runs :
      (cmds : List Cmd) (ctx : Ctx) (w : W) (cmd : Cmd)
      → Replaces
      → (let (ctx', w') = after_runs ctx w cmds in
          persistent_pre_run sdk run ctx' cmd w' ≡ persistent_pre_run sdk run ctx cmd w')
  unfolding after_runs
  persistent_pre_run-after_runs [] ctx w cmd law = refl
  persistent_pre_run-after_runs (c ∷ cmds) ctx w cmd law =
      let ((answer, v), ctx') = persistent_pre_run sdk run ctx c w in
      persistent_pre_run-after_runs cmds ctx' v cmd law ∙ one_run ctx w _ c cmd law
