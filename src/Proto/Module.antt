-- ===== src/Proto/Module.antt =====
-- x/tatcore/types/module.pb.go: Module, the configuration of the module. A receiver is not nil.
pub mod Codec
use tatcoin.Base.{ℕ, ◌+◌, ◌-◌, Option, none, some, List, ltb, ◌==◌, if◌then◌else◌, length}
use tatcoin.Proto.Result.{Result, ok, ◌>>=◌}
use tatcoin.Proto.Result.PbFile.{module_file}
use tatcoin.Proto.Result.MessageName.{module_message}
use tatcoin.Proto.Result.FieldName.{authority_field}
use tatcoin.Proto.Emit.{written, sov, put_string}
use tatcoin.Proto.Message.{Field, string_field, unmarshal_into, marshal_fresh, marshal_into}

pub record Module : Type 0 where
  pub authority : List ℕ

-- `GetAuthority`, on a pointer that may be nil
pub get_authority : Option Module → List ℕ
get_authority none = List.[]
get_authority (some m) = m.authority

abbrev pub new_module : Module
new_module = record { authority = List.[] }

pub size : Module → ℕ
size m = let l = length m.authority in if ltb 0 l then 1 + l + sov l else 0

pub marshal_to_sized_buffer : Module → List ℕ → Result (List ℕ × ℕ)
marshal_to_sized_buffer m buf = do
  (buf', i) ← put_string 0xa m.authority buf (length buf)
  written buf' i

pub marshal : Module → Result (List ℕ)
marshal m = marshal_fresh (size m) (marshal_to_sized_buffer m)

pub marshal_to : Module → List ℕ → Result (List ℕ × ℕ)
marshal_to m = marshal_into (size m) (marshal_to_sized_buffer m)

abbrev pub fields : ℕ → Option (Field Module)
fields field_num =
    if field_num == 1
    then some (string_field module_file authority_field (λ s m. record m { authority = s }))
    else none

pub unmarshal : List ℕ → Module → Result Module
unmarshal = unmarshal_into module_file module_message fields
