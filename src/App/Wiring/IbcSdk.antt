-- ===== src/App/Wiring/IbcSdk.antt =====
-- What the wiring of IBC takes from the Cosmos SDK and ibc-go. `A` is the app of the runtime with its
-- keepers, `P` gives light clients their stores; a keeper of IBC is shared, and what is set on it is
-- set in place.
use tatcoin.Base.{Option, List, Bool}
use tatcoin.Keeper.Sdk.{Outcome}
use tatcoin.Cmd.Flags.{Text}
use tatcoin.App.Ended.{Ended}
use tatcoin.App.Wiring.Config.{Name}

-- What `UnsafeFindStoreKey` gives: a `*KVStoreKey` or something else.
pub data StoreKey (Key : Type 0) : Type 0 where
  kv : Key → StoreKey Key
  not_kv : StoreKey Key

-- The stacks of version 1, by the keeper they are over.
pub data Stack (Transfer Host Controller : Type 0) : Type 0 where
  transfer_stack : Transfer → Stack Transfer Host Controller
  ica_controller_stack : Controller → Stack Transfer Host Controller
  ica_host_stack : Host → Stack Transfer Host Controller

-- The light client modules.
pub data LightClient (P : Type 0) : Type 0 where
  tendermint_client solomachine_client : P → LightClient P

-- The modules that are registered.
pub data IbcModule (Ibc Transfer Host Controller P : Type 0) : Type 0 where
  ibc_module : Ibc → IbcModule Ibc Transfer Host Controller P
  transfer_module : Transfer → IbcModule Ibc Transfer Host Controller P
  ica_module : Controller → Host → IbcModule Ibc Transfer Host Controller P
  light_client_module : LightClient P → IbcModule Ibc Transfer Host Controller P

pub record IbcSdk (E A Key Table Subspace Ibc Transfer Host Controller Router RouterV2 P : Type 0)
    : Type 0 where
  pub register_stores : List Name → A → Outcome E A
  pub unsafe_find_store_key : Name → A → StoreKey Key
  pub client_key_table : Table
  pub register_connection_params : Table → Table
  pub transfer_key_table : Table
  pub controller_key_table : Table
  pub host_key_table : Table
  pub subspace_with_key_table : Name → Table → A → Ended E A
  pub get_subspace : Name → A → Subspace × Bool
  pub module_address_text : Name → A → Outcome E Text
  pub new_ibc_keeper : A → Option Key → Subspace → Text → Ended E Ibc
  pub new_transfer_keeper : A → Ibc → Option Key → Subspace → Text → Ended E Transfer
  pub new_host_keeper : A → Ibc → Option Key → Subspace → Text → Ended E Host
  pub new_controller_keeper : A → Ibc → Option Key → Subspace → Text → Ended E Controller
  pub new_router : Router
  pub add_route : Name → Stack Transfer Host Controller → Router → Ended E Router
  pub new_router_v2 : RouterV2
  pub add_route_v2 : Name → Transfer → RouterV2 → Ended E RouterV2
  pub set_router : Router → Ibc → Ended E Ibc
  pub set_router_v2 : RouterV2 → Ibc → Ended E Ibc
  pub store_provider : Ibc → P
  pub add_client_route : Name → LightClient P → Ibc → Ended E Ibc
  pub register_modules : List (IbcModule Ibc Transfer Host Controller P) → A → Outcome E A
