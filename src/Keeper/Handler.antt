-- ===== src/Keeper/Handler.antt =====
-- The gRPC handlers that the generated code registers for the two services of the module
-- (`_Msg_UpdateParams_Handler` in tx.pb.go, `_Query_Params_Handler` in query.pb.go).
use Prim.Native.String.{String}
use tatcoin.Base.{Option, none, some}
use tatcoin.Keeper.Sdk.{Outcome, ok, err}
use tatcoin.Keeper.Server.{Error, Keeper, update_params, query_params}
use tatcoin.Proto.Tx.{MsgUpdateParams, MsgUpdateParamsResponse}
use tatcoin.Proto.Query.{QueryParamsRequest, QueryParamsResponse}

-- A `grpc.UnaryServerInterceptor`: it is given the full name of the method, the request and the
-- handler, which it may call on any request, or not at all.
abbrev pub Interceptor : Type 0 → Type 0 → Type 0
Interceptor Req R = String → Req → (Req → R) → R

-- The body that both handlers have; `fail` gives the answer to a request that cannot be decoded.
pub handle :
    {E Req R : Type 0}
    → String
    → Outcome E Req
    → Option (Interceptor Req R)
    → (Req → R)
    → (E → R)
    → R
handle method (err e) interceptor serve fail = fail e
handle method (ok req) none serve fail = serve req
handle method (ok req) (some interceptor) serve fail = interceptor method req serve

-- An error of a handler: of decoding, or of the server.
pub data HandlerError (E : Type 0) : Type 0 where
  undecoded : E → HandlerError E
  served : Error E → HandlerError E

abbrev pub of_server : {E A : Type 0} → Outcome (Error E) A → Outcome (HandlerError E) A
of_server (ok a) = ok a
of_server (err e) = err (served e)

module _ {E Store : Type 0} (k : Keeper E Store) (s : Store) where
  -- What `UpdateParams` answers, and the store after it.
  abbrev pub UpdateAnswer : Type 0
  UpdateAnswer = Outcome (HandlerError E) MsgUpdateParamsResponse × Store

  abbrev pub serve_update : MsgUpdateParams → UpdateAnswer
  serve_update req = let (answer, s') = update_params k s req in (of_server answer, s')

  unfoldable pub msg_update_params_handler :
      Outcome E MsgUpdateParams → Option (Interceptor MsgUpdateParams UpdateAnswer) → UpdateAnswer
  unfolding handle
  msg_update_params_handler dec interceptor =
      handle "/tatcore.tatcore.v1.Msg/UpdateParams" dec interceptor serve_update
        (λ e. (err (undecoded e), s))

  abbrev pub QueryAnswer : Type 0
  QueryAnswer = Outcome (HandlerError E) QueryParamsResponse

  abbrev pub serve_query : QueryParamsRequest → QueryAnswer
  serve_query req = of_server (query_params k s (some req))

  unfoldable pub query_params_handler :
      Outcome E QueryParamsRequest
      → Option (Interceptor QueryParamsRequest QueryAnswer)
      → QueryAnswer
  unfolding handle
  query_params_handler dec interceptor =
      handle "/tatcore.tatcore.v1.Query/Params" dec interceptor serve_query (λ e. err (undecoded e))
