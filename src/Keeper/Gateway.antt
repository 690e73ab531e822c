-- ===== src/Keeper/Gateway.antt =====
-- The gateway of the Query service (x/tatcore/types/query.pb.gw.go) and the client that it calls
-- (`queryClient.Params` in query.pb.go). `H` is an HTTP request, `Md` the headers and trailers of a call.
use Prim.Native.String.{String}
use tatcoin.Base.{ℕ, Option, none, some, List, [], ◌∷◌}
use tatcoin.Keeper.Sdk.{Outcome, ok, err}
use tatcoin.Keeper.Server.{Built, built, panics}
use tatcoin.Proto.Result.{Result}
use tatcoin.Proto.Params.{no_params}
use tatcoin.Proto.Query.{
  QueryParamsRequest, request, request_marshal, QueryParamsResponse, unmarshal,
}

-- What the gateway takes from grpc-gateway.
pub record Gateway (E H Ctx Marshaler Md : Type 0) : Type 0 where
  pub marshaler_for_request : H → Marshaler × Marshaler
  pub annotate_incoming_context : H → Outcome E Ctx
  pub annotate_context : H → Outcome E Ctx
  pub no_metadata : Md
  pub join : Md → Md → Md

-- What is answered to an HTTP request, by the outbound marshaler: an error, with the metadata where the
-- call was made, or a message.
pub data Reply (E Marshaler Md : Type 0) : Type 0 where
  http_error : Marshaler → E → Option Md → Reply E Marshaler Md
  forwarded : Marshaler → QueryParamsResponse → Md → Reply E Marshaler Md

-- A connection: the context, the method and the bytes of the request, and the bytes of the response.
abbrev pub Connection : Type 0 → Type 0 → Type 0 → Type 0
Connection E Ctx Md = Ctx → String → List ℕ → Outcome E (List ℕ) × Md

-- A call of the service, with its metadata.
abbrev pub Call : Type 0 → Type 0 → Type 0 → Type 0
Call E Ctx Md = Ctx → QueryParamsRequest → Outcome E QueryParamsResponse × Md

-- What the codec of gRPC makes of a generated method; `fault` is its error.
abbrev pub coded : {E A : Type 0} → E → Result A → Outcome E A
coded fault (Result.ok a) = ok a
coded fault (Result.err e) = err fault
coded fault Result.panic = err fault
coded fault Result.stuck = err fault

abbrev pub read_response :
    {E Md : Type 0} → E → Outcome E (List ℕ) × Md → Outcome E QueryParamsResponse × Md
read_response fault (err e, md) = (err e, md)
read_response fault (ok bytes, md) =
    (coded fault (unmarshal bytes (record { params = no_params })), md)

abbrev pub invoke :
    {E Ctx Md : Type 0}
    → E
    → Md
    → Connection E Ctx Md
    → Ctx
    → Outcome E (List ℕ)
    → Outcome E QueryParamsResponse × Md
invoke fault md conn ctx (err e) = (err e, md)
invoke fault md conn ctx (ok bytes) =
    read_response fault (conn ctx "/tatcore.tatcore.v1.Query/Params" bytes)

-- `queryClient.Params`
unfoldable pub client_params : {E Ctx Md : Type 0} → E → Md → Connection E Ctx Md → Call E Ctx Md
client_params fault md conn ctx req = invoke fault md conn ctx (coded fault (request_marshal req))

-- `pattern_Query_Params_0`
abbrev pub pattern_params : List String
pattern_params = "alltest0777" ∷ "tatcore" ∷ "v1" ∷ "params" ∷ []

module _ {E H Ctx Marshaler Md : Type 0} (gw : Gateway E H Ctx Marshaler Md) where
  -- The end of both handlers.
  abbrev pub reply : Marshaler → Outcome E QueryParamsResponse × Md → Reply E Marshaler Md
  reply outbound (err e, md) = http_error outbound e (some md)
  reply outbound (ok resp, md) = forwarded outbound resp md

  -- `local_request_Query_Params_0`: the answer, and the metadata that it has no part in.
  unfoldable pub local_request_params :
      Call E Ctx Md → Ctx → (Outcome E QueryParamsResponse × Md) × Md
  local_request_params server ctx =
      let (answer, stream) = server ctx request in ((answer, gw.no_metadata), stream)

  -- `request_Query_Params_0`
  unfoldable pub request_params : Call E Ctx Md → Ctx → Outcome E QueryParamsResponse × Md
  request_params client ctx = client ctx request

  -- `metadata.Join` of what was returned with what the stream has.
  abbrev pub joined : (Outcome E QueryParamsResponse × Md) × Md → Outcome E QueryParamsResponse × Md
  joined ((answer, md), stream) = (answer, gw.join md stream)

  abbrev pub annotated :
      Marshaler → (Ctx → Outcome E QueryParamsResponse × Md) → Outcome E Ctx → Reply E Marshaler Md
  annotated outbound serve (err e) = http_error outbound e none
  annotated outbound serve (ok ctx) = reply outbound (serve ctx)

  -- The handler that `RegisterQueryHandlerServer` registers.
  unfoldable pub handle_server : Call E Ctx Md → H → Reply E Marshaler Md
  unfolding local_request_params
  handle_server server req =
      annotated (gw.marshaler_for_request req).1 (λ ctx. joined (local_request_params server ctx))
        (gw.annotate_incoming_context req)

  -- The handler that `RegisterQueryHandlerClient` registers.
  unfoldable pub handle_client : Call E Ctx Md → H → Reply E Marshaler Md
  unfolding request_params
  handle_client client req =
      annotated (gw.marshaler_for_request req).1 (request_params client) (gw.annotate_context req)

  -- `RegisterQueryHandlerFromEndpoint`, after the dialling: the handler over the connection.
  unfoldable pub handler_from_endpoint :
      E → Outcome E (Connection E Ctx Md) → Outcome E (H → Reply E Marshaler Md)
  unfolding handle_client client_params
  handler_from_endpoint fault (err e) = err e
  handler_from_endpoint fault (ok conn) =
      ok (handle_client (client_params fault gw.no_metadata conn))

  -- `RegisterQueryHandlerServer` and `RegisterQueryHandlerClient`, over the adding of a handler to a mux:
  -- the mux and the error, which there is not.
  unfoldable pub register_query_handler_server :
      {Mux : Type 0}
      → (String → List String → (H → Reply E Marshaler Md) → Mux → Mux)
      → Call E Ctx Md
      → Mux
      → Mux × Option E
  unfolding handle_server
  register_query_handler_server add server mux =
      (add "GET" pattern_params (handle_server server) mux, none)

  unfoldable pub register_query_handler_client :
      {Mux : Type 0}
      → (String → List String → (H → Reply E Marshaler Md) → Mux → Mux)
      → Call E Ctx Md
      → Mux
      → Mux × Option E
  unfolding handle_client
  register_query_handler_client add client mux =
      (add "GET" pattern_params (handle_client client) mux, none)

  -- `RegisterGRPCGatewayRoutes` of x/tatcore/module/module.go, with the client over the connection of the
  -- context; it panics on an error.
  unfoldable pub register_grpc_gateway_routes :
      {Mux : Type 0}
      → E
      → Connection E Ctx Md
      → (String → List String → (H → Reply E Marshaler Md) → Mux → Mux)
      → Mux
      → Built Mux
  unfolding client_params register_query_handler_client
  register_grpc_gateway_routes fault conn add mux =
      let client = client_params fault gw.no_metadata conn in
      let (mux', error) = register_query_handler_client add client mux in
      elim error [ some e ↦ panics | none ↦ built mux' ]
