-- ===== src/Keeper/Services.antt =====
-- The services that the module registers: `RegisterServices` and `AutoCLIOptions` (x/tatcore/module), the
-- descriptors of the generated code, and `RegisterInterfaces` (x/tatcore/types/codec.go).
use Prim.Native.String.{String, ◌++◌}
use text.Mathlib.Text.{◌==◌}
use tatcoin.Base.{◌≡◌, refl, ap, ◌∙◌, Option, some, List, [], ◌∷◌, Bool, true, false, if◌then◌else◌}
use tatcoin.Keeper.Sdk.{Outcome, ok}
use tatcoin.Keeper.Server.{Keeper, update_params, query_params}
use tatcoin.Keeper.Handler.{
  Interceptor, of_server, UpdateAnswer, QueryAnswer, msg_update_params_handler,
  query_params_handler,
}
use tatcoin.Proto.Tx.{MsgUpdateParams}
use tatcoin.Proto.Query.{QueryParamsRequest}

-- The handler of a method, over the server that is registered with it.
pub data Method (E Store : Type 0) : Type 0 where
  update_method :
      (k : Keeper E Store)
      → ((s : Store)
          → Outcome E MsgUpdateParams
          → Option (Interceptor MsgUpdateParams (UpdateAnswer k s))
          → UpdateAnswer k s)
      → Method E Store
  query_method :
      (k : Keeper E Store)
      → ((s : Store)
          → Outcome E QueryParamsRequest
          → Option (Interceptor QueryParamsRequest (QueryAnswer k s))
          → QueryAnswer k s)
      → Method E Store

-- `grpc.ServiceDesc`, whose methods stand here with the server that is registered with them; there are no
-- streams.
pub record ServiceDesc (E Store : Type 0) : Type 0 where
  pub service_name : String
  pub methods : List (String × Method E Store)
  pub metadata : String

module _ {E Store : Type 0} where
  -- `_Msg_serviceDesc`, over `NewMsgServerImpl(keeper)`
  unfoldable pub msg_service_desc : Keeper E Store → ServiceDesc E Store
  msg_service_desc k = record {
    service_name = "tatcore.tatcore.v1.Msg";
    methods = ("UpdateParams", update_method k (msg_update_params_handler k)) ∷ [];
    metadata = "tatcore/tatcore/v1/tx.proto";
  }

  -- `_Query_serviceDesc`, over `NewQueryServerImpl(keeper)`
  unfoldable pub query_service_desc : Keeper E Store → ServiceDesc E Store
  query_service_desc k = record {
    service_name = "tatcore.tatcore.v1.Query";
    methods = ("Params", query_method k (query_params_handler k)) ∷ [];
    metadata = "tatcore/tatcore/v1/query.proto";
  }

  -- `RegisterServices`, over what registers a service.
  unfoldable pub register_services :
      {R : Type 0} → (ServiceDesc E Store → R → R) → Keeper E Store → R → R
  unfolding msg_service_desc query_service_desc
  register_services register_service k r =
      register_service (query_service_desc k) (register_service (msg_service_desc k) r)

  -- `RegisterInterfaces`: the message, and the service that it belongs to.
  unfoldable pub register_interfaces :
      {R : Type 0} → (R → R) → (ServiceDesc E Store → R → R) → Keeper E Store → R → R
  unfolding msg_service_desc
  register_interfaces register_msg_update_params register_msg_service_desc k r =
      register_msg_service_desc (msg_service_desc k) (register_msg_update_params r)

-- `autocliv1.RpcCommandOptions`
pub record RpcOptions : Type 0 where
  pub rpc_method : String
  pub use_line : String
  pub short : String
  pub skip : Bool

-- `autocliv1.ServiceCommandDescriptor`
pub record CommandDescriptor : Type 0 where
  pub service : String
  pub enhance_custom_command : Bool
  pub rpc_command_options : List RpcOptions

-- `AutoCLIOptions`: the commands of the queries, and those of the transactions.
unfoldable pub auto_cli_options :
    {E Store : Type 0} → Keeper E Store → CommandDescriptor × CommandDescriptor
unfolding msg_service_desc query_service_desc
auto_cli_options k = (
  record {
    service = (query_service_desc k).service_name;
    enhance_custom_command = false;
    rpc_command_options =
        record {
          rpc_method = "Params";
          use_line = "params";
          short = "Shows the parameters of the module";
          skip = false;
        }
        ∷ [];
  },
  record {
    service = (msg_service_desc k).service_name;
    enhance_custom_command = true;
    rpc_command_options =
        record { rpc_method = "UpdateParams"; use_line = ""; short = ""; skip = true } ∷ [];
  },
)

-- The path of a method.
abbrev pub path_of : String → String → String
path_of service method = "/" ++ (service ++ ("/" ++ method))

-- The method of a service that has a path, or what there was at the path.
abbrev pub method_or :
    {E Store : Type 0}
    → String
    → List (String × Method E Store)
    → String
    → Option (Method E Store)
    → Option (Method E Store)
method_or service [] path before = before
method_or service ((name, m) ∷ ms) path before =
    if path == path_of service name then some m else method_or service ms path before

module _ {E Store R : Type 0} (register_service : ServiceDesc E Store → R → R)
    (route : R → String → Option (Method E Store)) where
  -- What gRPC documents of a server: a service that is registered answers at the paths of its methods, and
  -- the other paths keep what they had.
  abbrev pub IsRegistrar : Type 0
  IsRegistrar =
      (d : ServiceDesc E Store) (r : R) (path : String)
      → route (register_service d r) path ≡ method_or d.service_name d.methods path (route r path)

  -- After RegisterServices the path of Query/Params leads to the query handler, that of Msg/UpdateParams
  -- to the message handler, both over the keeper of the module, and every other path leads where it did;
  -- and these two paths are what the handlers give an interceptor as the name of the method, with the
  -- request that was decoded and a function that calls the server; a service that is registered answers
  -- at its paths.
  pub route-register_services :
      (k : Keeper E Store) (r : R) (path : String)
      → IsRegistrar
      → (route (register_services register_service k r) path ≡ (
          if path == "/tatcore.tatcore.v1.Query/Params"
          then some (query_method k (query_params_handler k))
          else if path == "/tatcore.tatcore.v1.Msg/UpdateParams"
          then some (update_method k (msg_update_params_handler k))
          else route r path))
        × ((s : Store) (req : QueryParamsRequest)
              (i : Interceptor QueryParamsRequest (QueryAnswer k s))
            → query_params_handler k s (ok req) (some i)
              ≡ i "/tatcore.tatcore.v1.Query/Params" req
                  (λ x. of_server (query_params k s (some x))))
        × ((s : Store) (req : MsgUpdateParams) (i : Interceptor MsgUpdateParams (UpdateAnswer k s))
            → msg_update_params_handler k s (ok req) (some i)
              ≡ i "/tatcore.tatcore.v1.Msg/UpdateParams" req
                  (λ x. (of_server (update_params k s x).0, (update_params k s x).1)))
  unfolding register_services msg_service_desc query_service_desc msg_update_params_handler
      query_params_handler
  route-register_services k r path law = (
    law (query_service_desc k) (register_service (msg_service_desc k) r) path
        ∙ ap
            (λ before.
              if path == "/tatcore.tatcore.v1.Query/Params"
              then some (query_method k (query_params_handler k))
              else before)
            (law (msg_service_desc k) r path),
    λ s req i. refl,
    λ s req i. refl,
  )
