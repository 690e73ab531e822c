-- ===== src/Proto/Tx.antt =====
-- x/tatcore/types/tx.pb.go: MsgUpdateParams and its response. A receiver is a message, not nil.
pub mod Marshal
pub mod RoundTrip
pub mod Unknown
use tatcoin.Base.{ℕ, ◌+◌, ◌-◌, Option, none, some, List, ltb, ◌==◌, if◌then◌else◌, length}
use tatcoin.Proto.Result.{Result, ok, ◌>>=◌}
use tatcoin.Proto.Result.PbFile.{tx}
use tatcoin.Proto.Result.MessageName.{msg_update_params, msg_update_params_response}
use tatcoin.Proto.Result.FieldName.{authority_field, params_field}
use tatcoin.Proto.Emit.{written, sov, put_string, put_message}
use tatcoin.Proto.Message.{
  Field, string_field, message_field, unmarshal_into, marshal_fresh, marshal_into,
}
use tatcoin.Proto.Params
use tatcoin.Proto.Params.{Params, no_params}

pub record MsgUpdateParams : Type 0 where
  pub authority : List ℕ
  pub params : Params

-- `GetAuthority` and `GetParams`, on a pointer that may be nil
pub get_authority : Option MsgUpdateParams → List ℕ
get_authority none = List.[]
get_authority (some m) = m.authority

pub get_params : Option MsgUpdateParams → Params
get_params none = no_params
get_params (some m) = m.params

-- The zero value, which `Unmarshal` is called on.
abbrev pub new_msg : MsgUpdateParams
new_msg = record { authority = List.[]; params = no_params }

-- `1 + l + sovTx(uint64(l))`
pub size : MsgUpdateParams → ℕ
size m =
    let l = length m.authority in
    let p = Params.size m.params in (if ltb 0 l then 1 + l + sov l else 0) + (1 + p + sov p)

pub marshal_to_sized_buffer : MsgUpdateParams → List ℕ → Result (List ℕ × ℕ)
marshal_to_sized_buffer m buf = do
  (buf', i) ← put_message 0x12 (Params.marshal_to_sized_buffer m.params) buf (length buf)
  (buf'', j) ← put_string 0xa m.authority buf' i
  written buf'' j

pub marshal : MsgUpdateParams → Result (List ℕ)
marshal m = marshal_fresh (size m) (marshal_to_sized_buffer m)

pub marshal_to : MsgUpdateParams → List ℕ → Result (List ℕ × ℕ)
marshal_to m = marshal_into (size m) (marshal_to_sized_buffer m)

abbrev pub set_authority : List ℕ → MsgUpdateParams → MsgUpdateParams
set_authority s m = record m { authority = s }

abbrev pub set_params : Params → MsgUpdateParams → MsgUpdateParams
set_params p m = record m { params = p }

-- The cases of `switch fieldNum`.
abbrev pub fields : ℕ → Option (Field MsgUpdateParams)
fields field_num =
    if field_num == 1
    then some (string_field tx authority_field set_authority)
    else if field_num == 2
    then some (message_field tx params_field (λ m. m.params) set_params Params.unmarshal)
    else none

pub unmarshal : List ℕ → MsgUpdateParams → Result MsgUpdateParams
unmarshal = unmarshal_into tx msg_update_params fields

-- `type MsgUpdateParamsResponse struct {}`
pub data MsgUpdateParamsResponse : Type 0 where
  response : MsgUpdateParamsResponse

pub response_size : MsgUpdateParamsResponse → ℕ
response_size response = 0

pub response_marshal_to_sized_buffer : MsgUpdateParamsResponse → List ℕ → Result (List ℕ × ℕ)
response_marshal_to_sized_buffer response buf = written buf (length buf)

pub response_marshal : MsgUpdateParamsResponse → Result (List ℕ)
response_marshal m = marshal_fresh (response_size m) (response_marshal_to_sized_buffer m)

pub response_marshal_to : MsgUpdateParamsResponse → List ℕ → Result (List ℕ × ℕ)
response_marshal_to m = marshal_into (response_size m) (response_marshal_to_sized_buffer m)

abbrev pub response_fields : ℕ → Option (Field MsgUpdateParamsResponse)
response_fields field_num = none

pub response_unmarshal : List ℕ → MsgUpdateParamsResponse → Result MsgUpdateParamsResponse
response_unmarshal = unmarshal_into tx msg_update_params_response response_fields
