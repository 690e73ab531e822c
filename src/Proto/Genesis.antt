-- ===== src/Proto/Genesis.antt =====
-- x/tatcore/types/genesis.pb.go: GenesisState. A receiver is not nil.
pub mod Codec
use tatcoin.Base.{ℕ, ◌+◌, ◌-◌, Option, none, some, List, ◌==◌, if◌then◌else◌, length}
use tatcoin.Proto.Result.{Result, ok, ◌>>=◌}
use tatcoin.Proto.Result.PbFile.{genesis}
use tatcoin.Proto.Result.MessageName.{genesis_state}
use tatcoin.Proto.Result.FieldName.{params_field}
use tatcoin.Proto.Emit.{written, sov, put_message}
use tatcoin.Proto.Message.{Field, message_field, unmarshal_into, marshal_fresh, marshal_into}
use tatcoin.Proto.Params
use tatcoin.Proto.Params.{Params, no_params}

pub record GenesisState : Type 0 where
  pub params : Params

-- `GetParams`, on a pointer that may be nil
pub get_params : Option GenesisState → Params
get_params none = no_params
get_params (some m) = m.params

pub size : GenesisState → ℕ
size m = let p = Params.size m.params in 1 + p + sov p

pub marshal_to_sized_buffer : GenesisState → List ℕ → Result (List ℕ × ℕ)
marshal_to_sized_buffer m buf = do
  (buf', i) ← put_message 0xa (Params.marshal_to_sized_buffer m.params) buf (length buf)
  written buf' i

pub marshal : GenesisState → Result (List ℕ)
marshal m = marshal_fresh (size m) (marshal_to_sized_buffer m)

pub marshal_to : GenesisState → List ℕ → Result (List ℕ × ℕ)
marshal_to m = marshal_into (size m) (marshal_to_sized_buffer m)

abbrev pub fields : ℕ → Option (Field GenesisState)
fields field_num =
    if field_num == 1
    then some (
        message_field genesis params_field (λ m. m.params) (λ p m. record m { params = p })
          Params.unmarshal)
    else none

pub unmarshal : List ℕ → GenesisState → Result GenesisState
unmarshal = unmarshal_into genesis genesis_state fields
