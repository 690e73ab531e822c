-- ===== src/App/Export/Command.antt =====
-- When `appExport` exports, and which app.
use tatcoin.Base.{
  ℕ, ◌≡◌, refl, ap, ◌∙◌, ◌==◌, Option, none, some, List, [], ◌∷◌, Bool, true, false, if◌then◌else◌,
}
use tatcoin.Keeper.Sdk.{Outcome, ok, err}
use tatcoin.App.Run.{>>=-eq-done, Run, done, panics}
use tatcoin.App.Export.Sdk.{Text, State, Sdk}
use tatcoin.App.Export.Exported.{
  Exported, Exporter, App, ExportError, export_app_state_and_validators, app_export, minus_one,
  run_export,
}

module _ {E D K L Coins G J V C : Type 0} (sdk : Sdk E D K L Coins)
    (exporter : Exporter E (State D K L) G J V C) where
  loaded :
      (r : Outcome E (App (State D K L))) (zero : Bool) (allowed modules : List Text)
      (answer : Exported E J V C)
      → run_export sdk exporter r zero allowed modules ≡ done (ok answer)
      → (app : App (State D K L)) × (r ≡ ok app)
        × (export_app_state_and_validators sdk exporter app zero allowed modules ≡ done answer)
  loaded (err x) zero allowed modules answer e = cc
  loaded (ok app) zero allowed modules answer e =
      let (given, made, same) =
        >>=-eq-done (export_app_state_and_validators sdk exporter app zero allowed modules) _ e in
      (app, refl, made ∙ ap done (ap answer_of same))
    where
      answer_of : Run (Outcome (ExportError E) (Exported E J V C)) → Exported E J V C
      answer_of (done (ok x)) = x
      answer_of (done (err x)) = answer
      answer_of panics = answer

  -- If `appExport` answers with an export, then the home is a text that is not empty, the options
  -- are those of viper, and the answer is the export of an app: the one made with its latest
  -- version loaded, when the height is -1, and else the one that loading the height gives.
  pub app_export-ok :
      (new : Bool → App (State D K L))
      (load_height : ℕ → App (State D K L) → Outcome E (App (State D K L))) (home : Option Text)
      (is_viper : Bool) (height : ℕ) (zero : Bool) (allowed modules : List Text)
      (answer : Exported E J V C)
      → app_export sdk exporter new load_height home is_viper height zero allowed modules
        ≡ done (ok answer)
      → (c : ℕ) × (rest : Text) × (home ≡ some (c ∷ rest))
        × (is_viper ≡ true)
        × (app : App (State D K L)) × ((if height == minus_one
              then ok (new true)
              else load_height height (new false))
            ≡ ok app)
        × (export_app_state_and_validators sdk exporter app zero allowed modules ≡ done answer)
  unfolding app_export
  app_export-ok new load_height none is_viper height zero allowed modules answer e = cc
  app_export-ok new load_height (some []) is_viper height zero allowed modules answer e = cc
  app_export-ok new load_height (some (c ∷ rest)) false height zero allowed modules answer e = cc
  app_export-ok new load_height (some (c ∷ rest)) true height zero allowed modules answer e =
      let (app, from, exported) = loaded _ zero allowed modules answer e in
      (c, rest, refl, refl, app, from, exported)
