-- ===== src/Keeper/Proxy.antt =====
-- The gateway over a connection answers as the gateway at the server.
use tatcoin.Base.{ℕ, ◌≡◌, none, List}
use tatcoin.Keeper.Sdk.{Outcome, ok, err}
use tatcoin.Keeper.Server.{Keeper}
use tatcoin.Keeper.Handler.{HandlerError, query_params_handler}
use tatcoin.Keeper.Gateway.{Gateway, Connection, Call, coded}
use tatcoin.Proto.Result.{Result}
use tatcoin.Proto.Query
use tatcoin.Proto.Query.{
  QueryParamsRequest, request, request_size, request_marshal_to_sized_buffer, request_marshal,
  request_unmarshal, QueryParamsResponse,
}

module _ {E Store Ctx Md : Type 0} (k : Keeper E Store) (s : Store) (fault : HandlerError E)
    (cause : E) (stream : Ctx → Md) (carried : Ctx → Ctx) where
  -- The service in the process of the server.
  abbrev pub local_call : Call (HandlerError E) Ctx Md
  local_call ctx req = (query_params_handler k s (ok req) none, stream ctx)

  -- The bytes of an answer.
  abbrev pub answered :
      Outcome (HandlerError E) QueryParamsResponse → Outcome (HandlerError E) (List ℕ)
  answered (ok resp) = coded fault (Query.marshal resp)
  answered (err e) = err e

  -- What gRPC documents of a connection to the server: the bytes of the request are decoded for the
  -- handler of the method, and its answer is encoded; an error stays what it is. The handler runs in the
  -- context that the call carries over: its incoming metadata is the outgoing metadata of the caller.
  abbrev pub Serves : Connection (HandlerError E) Ctx Md → Type 0
  Serves conn =
      (ctx : Ctx) (bytes : List ℕ)
      → conn ctx "/tatcore.tatcore.v1.Query/Params" bytes ≡ (
        answered (query_params_handler k s (coded cause (request_unmarshal bytes request)) none),
        stream (carried ctx),
      )

  module _ {H Marshaler : Type 0} (gw : Gateway (HandlerError E) H Ctx Marshaler Md) where
    -- A context that is carried over, or the error in its place.
    abbrev pub carry : Outcome (HandlerError E) Ctx → Outcome (HandlerError E) Ctx
    carry (ok ctx) = ok (carried ctx)
    carry (err e) = err e
