-- ===== src/Keeper/AppModule.antt =====
-- x/tatcore/module: the genesis methods of AppModule and the wiring of the keeper.
use Prim.Native.String.{String}
use tatcoin.Base.{ℕ, Option, none, some, List, ltb, if◌then◌else◌, length}
use tatcoin.Keeper.Sdk.{ok, err, AddressCodec, ParamsItem, JsonCodec}
use tatcoin.Keeper.Server.{
  Keeper, Built, built, panics, new_keeper, default_genesis, validate_genesis, init_genesis,
  export_genesis,
}
use tatcoin.Proto.Params.{default_params}
use tatcoin.Proto.Module.{Module}

-- An error of `ValidateGenesis`: the JSON cannot be read, or the state is not valid.
pub data GenesisError (E : Type 0) : Type 0 where
  failed_to_unmarshal invalid : E → GenesisError E

module _ {E : Type 0} (cdc : JsonCodec E) where
  -- `AppModule.DefaultGenesis`; `MustMarshalJSON` panics on an error.
  unfoldable pub app_default_genesis : Built (List ℕ)
  app_default_genesis = elim (cdc.marshal_json default_genesis) [
    | ok bz ↦ built bz
    | err e ↦ panics
  ]

  -- `AppModule.ValidateGenesis`: the error, if there is one.
  unfoldable pub app_validate_genesis : List ℕ → Option (GenesisError E)
  app_validate_genesis bz = elim (cdc.unmarshal_json bz) [
    | err e ↦ some (failed_to_unmarshal e)
    | ok gs ↦ elim (validate_genesis {E = E} gs) [ none ↦ none | some e ↦ some (invalid e) ]
  ]

  module _ {Store : Type 0} (k : Keeper E Store) where
    -- `AppModule.InitGenesis`: the store after it.
    unfoldable pub app_init_genesis : Store → List ℕ → Built Store
    app_init_genesis s bz = elim (cdc.unmarshal_json bz) [
      | err e ↦ panics
      | ok gs ↦ elim (init_genesis k s gs).1 [
        | some e ↦ panics
        | none ↦ built (init_genesis k s gs).0
      ]
    ]

    -- `AppModule.ExportGenesis`
    unfoldable pub app_export_genesis : Store → Built (List ℕ)
    app_export_genesis s = elim (export_genesis k s) [
      | err e ↦ panics
      | ok gs ↦ elim (cdc.marshal_json gs) [ err e ↦ panics | ok bz ↦ built bz ]
    ]

-- `authtypes.NewModuleAddress(types.GovModuleName)` is `gov`; `from_config` is
-- `authtypes.NewModuleAddressOrBech32Address`.
unfoldable pub module_authority : List ℕ → (List ℕ → List ℕ) → Module → List ℕ
module_authority gov from_config config =
    if ltb 0 (length config.authority) then from_config config.authority else gov

-- `ProvideModule`, as to the keeper.
unfoldable pub provide_keeper :
    {E Store : Type 0}
    → AddressCodec E
    → ParamsItem E Store
    → Option E
    → List ℕ
    → (List ℕ → List ℕ)
    → Module
    → Built (Keeper E Store)
provide_keeper codec item schema gov from_config config =
    new_keeper codec item (module_authority gov from_config config) schema

-- `AppModule.BeginBlock`: its error.
unfoldable pub begin_block : {E : Type 0} → Option E
begin_block = none

-- `AppModule.EndBlock`: its error.
unfoldable pub end_block : {E : Type 0} → Option E
end_block = none

-- `AppModule.ConsensusVersion`
abbrev pub consensus_version : ℕ
consensus_version = 1

-- `GenerateGenesisState` of x/tatcore/module/simulation.go, over the setting of a key of the state `G` of the
-- simulation: the accounts that it reads are not used.
unfoldable pub generate_genesis_state :
    {E G : Type 0} → JsonCodec E → (String → List ℕ → G → G) → G → Built G
generate_genesis_state cdc set gen_state =
    elim (cdc.marshal_json (record { params = default_params })) [
      | ok bz ↦ built (set "tatcore" bz gen_state)
      | err e ↦ panics
    ]
