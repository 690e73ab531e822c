-- ===== src/App/Export/Height.antt =====
-- What an export is made of, and when it is refused.
use tatcoin.Base.{
  ℕ, ◌+◌, ◌%◌, ◌^◌, ◌≡◌, refl, inl, inr, Option, List, [], ◌∷◌, Bool, true, false, if◌then◌else◌,
  Bool-cases, ap, sym, ◌∙◌,
}
use tatcoin.Keeper.Updates.{bytes_equal_iff}
use tatcoin.Keeper.Server.{bytes_equal}
use tatcoin.Keeper.Sdk.{Outcome, ok, err}
use tatcoin.App.Run.{>>=-eq-done, Run, done, panics, ◌>>=◌}
use tatcoin.App.Export.Sdk.{Text, State, Sdk}
use tatcoin.App.Export.Defs.{must, is_allowed, check_allowed, prep_for_zero_height_genesis}
use tatcoin.App.Export.Exported.{
  ExportedApp, Exported, failed, exported, Exporter, App, export_state, with_genesis,
  with_app_state, export_app_state_and_validators,
}

done-injective : {A : Type 0} {a b : A} → done a ≡ done b → a ≡ b
done-injective {a = a} h = cc

>>-panics : {A B : Type 0} (r : Run A) → let stop : A → Run B = λ _. panics in (r >>= stop) ≡ panics
>>-panics (done d) = refl
>>-panics panics = refl

-- An app with its error is the export of a state at a height: its parts are the parts of that state.
pub IsExportOf :
    {E S G J V C : Type 0}
    → Exporter E S G J V C
    → List Text
    → ℕ
    → S
    → ExportedApp J V C
    → Option E
    → Type 0
IsExportOf {G = G} exporter modules height s a e =
    (gen : G) × (exporter.export_genesis s modules ≡ ok gen)
    × (exporter.marshal_indent gen ≡ ok a.app_state)
    × ((exporter.write_validators s).0 ≡ a.validators)
    × ((exporter.write_validators s).1 ≡ e)
    × (a.height ≡ height)
    × (exporter.get_consensus_params s ≡ a.consensus_params)

module _ {E D K L Coins G J V C : Type 0} (sdk : Sdk E D K L Coins)
    (exporter : Exporter E (State D K L) G J V C) where
  export_state-IsExportOf :
      (height : ℕ) (s : State D K L) (modules : List Text) (a : ExportedApp J V C) (e : Option E)
      → export_state sdk exporter height s modules ≡ exported a e
      → IsExportOf exporter modules height s a e
  unfolding export_state IsExportOf
  export_state-IsExportOf height s modules a e h = outer (exporter.export_genesis s modules) refl h
    where
      app_of : Exported E J V C → ExportedApp J V C
      app_of (exported x d) = x
      app_of (failed d) = a

      error_of : Exported E J V C → Option E
      error_of (exported x d) = d
      error_of (failed d) = e

      inner :
          (gen : G) (r : Outcome E J)
          → exporter.export_genesis s modules ≡ ok gen
          → exporter.marshal_indent gen ≡ r
          → with_app_state sdk exporter height s r ≡ exported a e
          → IsExportOf exporter modules height s a e
      inner gen (ok j) read written h =
          let parts = ap app_of h in
          (
            gen,
            read,
            written ∙ ap (λ x. ok x.app_state) parts,
            ap (λ x. x.validators) parts,
            ap error_of h,
            sym (ap (λ x. x.height) parts),
            ap (λ x. x.consensus_params) parts,
          )
      inner gen (err d) read written h = cc

      outer :
          (r : Outcome E G)
          → exporter.export_genesis s modules ≡ r
          → with_genesis sdk exporter height s r ≡ exported a e
          → IsExportOf exporter modules height s a e
      outer (ok gen) read h = inner gen (exporter.marshal_indent gen) read refl h
      outer (err d) read h = cc

  -- If the export of an app gives an exported app, then this has the parts of some state: of the
  -- state that the preparation gives, at height 0, when it is for zero height, and else of the own
  -- state of the app, at the height after the last block.
  pub export-IsExportOf :
      (app : App (State D K L)) (zero : Bool) (allowed modules : List Text) (a : ExportedApp J V C)
      (e : Option E)
      → export_app_state_and_validators sdk exporter app zero allowed modules ≡ done (exported a e)
      → (s : State D K L) × ((if zero
            then prep_for_zero_height_genesis sdk app.last_block_height allowed app.state
            else done app.state)
          ≡ done s)
        × IsExportOf exporter modules
            (if zero then 0 else (app.last_block_height + 1) % 2 ^ 64)
            s
            a
            e
  unfolding export_app_state_and_validators
  export-IsExportOf app true allowed modules a e h =
      let (s, prepared, rest) =
        >>=-eq-done (prep_for_zero_height_genesis sdk app.last_block_height allowed app.state) _
          h in
      (s, prepared, export_state-IsExportOf 0 s modules a e (done-injective rest))
  export-IsExportOf app false allowed modules a e h =
      (app.state, refl, export_state-IsExportOf _ app.state modules a e (done-injective h))

  check_allowed-panics :
      (xs : List Text) (addr : Text) (e : E)
      → is_allowed xs addr ≡ true
      → sdk.validator_to_bytes addr ≡ err e
      → check_allowed sdk xs ≡ panics
  unfolding is_allowed check_allowed
  check_allowed-panics [] addr e p unread = cc
  check_allowed-panics (x ∷ xs) addr e p unread = elim (Bool-cases (bytes_equal x addr)) [
    | inl same ↦ let here : x ≡ addr = (bytes_equal_iff x addr).0 same in rw (here, unread) refl
    | inr other ↦
        let later = check_allowed-panics xs addr e (rw (← p, other) refl) unread in
        rw later (>>-panics (must (sdk.validator_to_bytes x)))
  ]

  -- An allowed address that the codec of validator addresses does not read makes the preparation panic.
  pub unreadable_allowed :
      (height : ℕ) (allowed : List Text) (s : State D K L) (addr : Text) (e : E)
      → is_allowed allowed addr ≡ true
      → sdk.validator_to_bytes addr ≡ err e
      → prep_for_zero_height_genesis sdk height allowed s ≡ panics
  unfolding prep_for_zero_height_genesis
  unreadable_allowed height allowed s addr e listed unread =
      rw (check_allowed-panics allowed addr e listed unread) refl
