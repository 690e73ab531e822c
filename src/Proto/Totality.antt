-- ===== src/Proto/Totality.antt =====
-- The Unmarshal methods of x/tatcore/types together, on bytes that nobody vouches for.
use tatcoin.Base.{ℕ, List}
use tatcoin.Proto.Result.{Ends}
use tatcoin.Proto.Wire.{IsSlice}
use tatcoin.Proto.Params
use tatcoin.Proto.Params.{Params}
use tatcoin.Proto.Params.Codec.{unmarshal-Ends}
use tatcoin.Proto.Tx
use tatcoin.Proto.Tx.{MsgUpdateParams, MsgUpdateParamsResponse, response_unmarshal}
use tatcoin.Proto.Tx.RoundTrip.{unmarshal-Ends_msg, response_unmarshal-Ends}
use tatcoin.Proto.Query
use tatcoin.Proto.Query.{QueryParamsRequest, QueryParamsResponse, request_unmarshal}
use tatcoin.Proto.Query.Codec.{unmarshal-Ends_query, request_unmarshal-Ends}
use tatcoin.Proto.Genesis
use tatcoin.Proto.Genesis.{GenesisState}
use tatcoin.Proto.Genesis.Codec.{unmarshal-Ends_genesis}
use tatcoin.Proto.Module
use tatcoin.Proto.Module.{Module}
use tatcoin.Proto.Module.Codec.{unmarshal-Ends_module}

-- On any slice of fewer than 2 ^ 63 bytes, and over any message that is there already, the Unmarshal
-- of each of the seven messages ends in a message or in an error: it neither panics nor runs out of
-- fuel.
pub every_unmarshal-Ends :
    (bs : List ℕ) (msg : MsgUpdateParams) (resp : MsgUpdateParamsResponse)
    (req : QueryParamsRequest) (answer : QueryParamsResponse) (gs : GenesisState) (p : Params)
    (m : Module)
    → IsSlice bs
    → Ends (Tx.unmarshal bs msg)
      × Ends (response_unmarshal bs resp)
      × Ends (request_unmarshal bs req)
      × Ends (Query.unmarshal bs answer)
      × Ends (Genesis.unmarshal bs gs)
      × Ends (Params.unmarshal bs p)
      × Ends (Module.unmarshal bs m)
every_unmarshal-Ends bs msg resp req answer gs p m small = (
  unmarshal-Ends_msg bs msg small,
  response_unmarshal-Ends bs resp small,
  request_unmarshal-Ends bs req small,
  unmarshal-Ends_query bs answer small,
  unmarshal-Ends_genesis bs gs small,
  unmarshal-Ends bs p small,
  unmarshal-Ends_module bs m small,
)
