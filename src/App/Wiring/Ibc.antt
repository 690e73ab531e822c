-- ===== src/App/Wiring/Ibc.antt =====
-- `registerIBCModules` (app/ibc.go), with `GetKey` and `GetSubspace` (app/app.go).
use tatcoin.Base.{Option, none, some, [], ◌∷◌}
use tatcoin.Keeper.Server.{text_or_empty}
use tatcoin.App.Ended.{Ended, went_on, ◌>>=◌, or_return}
use tatcoin.App.Wiring.Config.{Name}
use tatcoin.App.Wiring.IbcSdk.{
  StoreKey, kv, not_kv, transfer_stack, ica_controller_stack, ica_host_stack, tendermint_client,
  solomachine_client, ibc_module, transfer_module, ica_module, light_client_module, IbcSdk,
}

-- `kvStoreKey, ok := x.(*storetypes.KVStoreKey)`
abbrev pub kv_only : {Key : Type 0} → StoreKey Key → Option Key
kv_only (kv k) = some k
kv_only not_kv = none

-- The keepers of IBC that the app keeps.
pub record Keepers (Ibc Transfer Host Controller : Type 0) : Type 0 where
  pub ibc : Ibc
  pub transfer : Transfer
  pub host : Host
  pub controller : Controller

module _ {E A Key Table Subspace Ibc Transfer Host Controller Router RouterV2 P : Type 0}
    (sdk : IbcSdk E A Key Table Subspace Ibc Transfer Host Controller Router RouterV2 P) where
  -- `GetKey`
  unfoldable pub get_key : Name → A → Option Key
  get_key store_key app = kv_only (sdk.unsafe_find_store_key store_key app)

  -- `GetSubspace`, whether or not there is one
  unfoldable pub get_subspace : Name → A → Subspace
  get_subspace module_name app = (sdk.get_subspace module_name app).0

  -- The store keys and the key tables.
  unfoldable pub register_stores : A → Ended E A
  register_stores app0 = do
    app1 ← or_return (
        sdk.register_stores
          (Name.ibc ∷ Name.ibc_transfer ∷ Name.ica_host ∷ Name.ica_controller ∷ []) app0)
    let key_table = sdk.register_connection_params sdk.client_key_table
    app2 ← sdk.subspace_with_key_table Name.ibc key_table app1
    app3 ← sdk.subspace_with_key_table Name.ibc_transfer sdk.transfer_key_table app2
    app4 ← sdk.subspace_with_key_table Name.ica_controller sdk.controller_key_table app3
    sdk.subspace_with_key_table Name.ica_host sdk.host_key_table app4

  -- The four keepers.
  unfoldable pub new_keepers : A → Ended E (Keepers Ibc Transfer Host Controller)
  unfolding get_key get_subspace
  new_keepers app = do
    let gov_module_addr = text_or_empty (sdk.module_address_text Name.gov app)
    ibc ← sdk.new_ibc_keeper app (get_key Name.ibc app) (get_subspace Name.ibc app) gov_module_addr
    transfer ←
        sdk.new_transfer_keeper app ibc (get_key Name.ibc_transfer app)
          (get_subspace Name.ibc_transfer app) gov_module_addr
    host ←
        sdk.new_host_keeper app ibc (get_key Name.ica_host app) (get_subspace Name.ica_host app)
          gov_module_addr
    controller ←
        sdk.new_controller_keeper app ibc (get_key Name.ica_controller app)
          (get_subspace Name.ica_controller app) gov_module_addr
    went_on (record { ibc = ibc; transfer = transfer; host = host; controller = controller })

  -- The routers of the keeper of IBC, and the routes of its light clients; `storeProvider` too.
  unfoldable pub set_routers :
      Keepers Ibc Transfer Host Controller → Ended E (Keepers Ibc Transfer Host Controller × P)
  set_routers keepers = do
    r1 ← sdk.add_route Name.ibc_transfer (transfer_stack keepers.transfer) sdk.new_router
    r2 ← sdk.add_route Name.ica_controller (ica_controller_stack keepers.controller) r1
    ibc_router ← sdk.add_route Name.ica_host (ica_host_stack keepers.host) r2
    ibcv2_router ← sdk.add_route_v2 Name.ibc_transfer keepers.transfer sdk.new_router_v2
    ibc1 ← sdk.set_router ibc_router keepers.ibc
    ibc2 ← sdk.set_router_v2 ibcv2_router ibc1
    let store_provider = sdk.store_provider ibc2
    ibc3 ← sdk.add_client_route Name.tendermint (tendermint_client store_provider) ibc2
    ibc4 ← sdk.add_client_route Name.solomachine (solomachine_client store_provider) ibc3
    went_on (record keepers { ibc = ibc4 }, store_provider)

  -- `registerIBCModules`: the app and its keepers of IBC
  unfoldable pub register_ibc_modules : A → Ended E (A × Keepers Ibc Transfer Host Controller)
  unfolding register_stores new_keepers set_routers
  register_ibc_modules app0 = do
    app ← register_stores app0
    made ← new_keepers app
    (keepers, store_provider) ← set_routers made
    app' ← or_return (
        sdk.register_modules
          (ibc_module keepers.ibc
            ∷ transfer_module keepers.transfer
            ∷ ica_module keepers.controller keepers.host
            ∷ light_client_module (tendermint_client store_provider)
            ∷ light_client_module (solomachine_client store_provider)
            ∷ [])
          app)
    went_on (app', keepers)
