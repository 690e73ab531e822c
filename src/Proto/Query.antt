-- ===== src/Proto/Query.antt =====
-- x/tatcore/types/query.pb.go: QueryParamsRequest and its response. A receiver is not nil.
pub mod Codec
use tatcoin.Base.{ℕ, ◌+◌, ◌-◌, Option, none, some, List, ◌==◌, if◌then◌else◌, length}
use tatcoin.Proto.Result.{Result, ok, ◌>>=◌}
use tatcoin.Proto.Result.PbFile.{query}
use tatcoin.Proto.Result.MessageName.{query_params_request, query_params_response}
use tatcoin.Proto.Result.FieldName.{params_field}
use tatcoin.Proto.Emit.{written, sov, put_message}
use tatcoin.Proto.Message.{Field, message_field, unmarshal_into, marshal_fresh, marshal_into}
use tatcoin.Proto.Params
use tatcoin.Proto.Params.{Params, no_params}

-- `type QueryParamsRequest struct {}`
pub data QueryParamsRequest : Type 0 where
  request : QueryParamsRequest

pub request_size : QueryParamsRequest → ℕ
request_size request = 0

pub request_marshal_to_sized_buffer : QueryParamsRequest → List ℕ → Result (List ℕ × ℕ)
request_marshal_to_sized_buffer request buf = written buf (length buf)

pub request_marshal : QueryParamsRequest → Result (List ℕ)
request_marshal m = marshal_fresh (request_size m) (request_marshal_to_sized_buffer m)

pub request_marshal_to : QueryParamsRequest → List ℕ → Result (List ℕ × ℕ)
request_marshal_to m = marshal_into (request_size m) (request_marshal_to_sized_buffer m)

abbrev pub request_fields : ℕ → Option (Field QueryParamsRequest)
request_fields field_num = none

pub request_unmarshal : List ℕ → QueryParamsRequest → Result QueryParamsRequest
request_unmarshal = unmarshal_into query query_params_request request_fields

pub record QueryParamsResponse : Type 0 where
  pub params : Params

-- `GetParams`, on a pointer that may be nil
pub get_params : Option QueryParamsResponse → Params
get_params none = no_params
get_params (some m) = m.params

pub size : QueryParamsResponse → ℕ
size m = let p = Params.size m.params in 1 + p + sov p

pub marshal_to_sized_buffer : QueryParamsResponse → List ℕ → Result (List ℕ × ℕ)
marshal_to_sized_buffer m buf = do
  (buf', i) ← put_message 0xa (Params.marshal_to_sized_buffer m.params) buf (length buf)
  written buf' i

pub marshal : QueryParamsResponse → Result (List ℕ)
marshal m = marshal_fresh (size m) (marshal_to_sized_buffer m)

pub marshal_to : QueryParamsResponse → List ℕ → Result (List ℕ × ℕ)
marshal_to m = marshal_into (size m) (marshal_to_sized_buffer m)

abbrev pub fields : ℕ → Option (Field QueryParamsResponse)
fields field_num =
    if field_num == 1
    then some (
        message_field query params_field (λ m. m.params) (λ p m. record m { params = p })
          Params.unmarshal)
    else none

pub unmarshal : List ℕ → QueryParamsResponse → Result QueryParamsResponse
unmarshal = unmarshal_into query query_params_response fields
