-- ===== src/App/Export/Exported.antt =====
-- `ExportAppStateAndValidators` of app/export.go, and `appExport` of cmd/tatcoind/cmd/commands.go.
-- An int64 is the 64-bit word that stands for it.
use tatcoin.Base.{
  ℕ, ◌+◌, ◌%◌, ◌^◌, ◌==◌, Option, none, some, List, [], ◌∷◌, Bool, true, false, if◌then◌else◌,
}
use tatcoin.Keeper.Sdk.{Outcome, ok, err}
use tatcoin.App.Run.{Run, done, ◌>>=◌}
use tatcoin.App.Export.Sdk.{Text, State, Sdk}
use tatcoin.App.Export.Defs.{prep_for_zero_height_genesis}

-- `servertypes.ExportedApp`
pub record ExportedApp (J V C : Type 0) : Type 0 where
  pub app_state : J
  pub validators : V
  pub height : ℕ
  pub consensus_params : C

-- What the export returns: the zero value with an error, or an exported app, which comes with an error
-- when the validators cannot be written.
pub data Exported (E J V C : Type 0) : Type 0 where
  failed : E → Exported E J V C
  exported : ExportedApp J V C → Option E → Exported E J V C

-- What it takes from the module manager, JSON, the staking module and the base app.
pub record Exporter (E S G J V C : Type 0) : Type 0 where
  pub export_genesis : S → List Text → Outcome E G
  pub marshal_indent : G → Outcome E J
  pub write_validators : S → V × Option E
  pub get_consensus_params : S → C

-- An app with its state, and the height of its last block.
pub record App (S : Type 0) : Type 0 where
  pub state : S
  pub last_block_height : ℕ

-- The errors that `appExport` makes or hands on.
pub data ExportError (E : Type 0) : Type 0 where
  home_not_set not_viper : ExportError E
  not_loaded : E → ExportError E

-- the int64 -1
abbrev pub minus_one : ℕ
minus_one = 18446744073709551615

module _ {E D K L Coins G J V C : Type 0} (sdk : Sdk E D K L Coins)
    (exporter : Exporter E (State D K L) G J V C) where
  -- What follows the preparation: the state is read at `height`.
  abbrev pub with_app_state : ℕ → State D K L → Outcome E J → Exported E J V C
  with_app_state height s (err e) = failed e
  with_app_state height s (ok app_state) =
      exported
        (record {
          app_state = app_state;
          validators = (exporter.write_validators s).0;
          height = height;
          consensus_params = exporter.get_consensus_params s;
        })
        (exporter.write_validators s).1

  abbrev pub with_genesis : ℕ → State D K L → Outcome E G → Exported E J V C
  with_genesis height s (err e) = failed e
  with_genesis height s (ok gen) = with_app_state height s (exporter.marshal_indent gen)

  unfoldable pub export_state : ℕ → State D K L → List Text → Exported E J V C
  export_state height s modules = with_genesis height s (exporter.export_genesis s modules)

  unfoldable pub export_app_state_and_validators :
      App (State D K L) → Bool → List Text → List Text → Run (Exported E J V C)
  unfolding export_state
  export_app_state_and_validators app true allowed modules = do
    s ← prep_for_zero_height_genesis sdk app.last_block_height allowed app.state
    done (export_state 0 s modules)
  export_app_state_and_validators app false allowed modules =
      done (export_state ((app.last_block_height + 1) % 2 ^ 64) app.state modules)

  -- `appExport`; `new` makes an app, with its latest version loaded or not.
  abbrev pub run_export :
      Outcome E (App (State D K L))
      → Bool
      → List Text
      → List Text
      → Run (Outcome (ExportError E) (Exported E J V C))
  run_export (err e) zero allowed modules = done (err (not_loaded e))
  run_export (ok app) zero allowed modules = do
    answer ← export_app_state_and_validators app zero allowed modules
    done (ok answer)

  unfoldable pub app_export :
      (Bool → App (State D K L))
      → (ℕ → App (State D K L) → Outcome E (App (State D K L)))
      → Option Text
      → Bool
      → ℕ
      → Bool
      → List Text
      → List Text
      → Run (Outcome (ExportError E) (Exported E J V C))
  app_export new load_height none is_viper height zero allowed modules = done (err home_not_set)
  app_export new load_height (some []) is_viper height zero allowed modules =
      done (err home_not_set)
  app_export new load_height (some (c ∷ home)) false height zero allowed modules =
      done (err not_viper)
  app_export new load_height (some (c ∷ home)) true height zero allowed modules =
      run_export (if height == minus_one then ok (new true) else load_height height (new false))
        zero allowed modules
