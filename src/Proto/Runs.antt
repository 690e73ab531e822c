-- ===== src/Proto/Runs.antt =====
-- The theorems of the codecs at concrete messages and bytes.
use tatcoin.Base.{ℕ, ◌+◌, ◌≡◌, refl, List, [], ◌∷◌, ◌++◌, length, arith}
use tatcoin.Proto.Result.{ok, Ends, ◌>>=◌}
use tatcoin.Proto.Result.PbFile.{tx}
use tatcoin.Proto.Varint.{varint, groups}
use tatcoin.Proto.Wire.{read_varint, skip}
use tatcoin.Proto.Wire.Varint.{read_varint-varint}
use tatcoin.Proto.Wire.Skip.{Skips, skip-Skips}
use tatcoin.Proto.Emit.{encode_varint}
use tatcoin.Proto.Emit.Varint.{encode_varint-varint}
use tatcoin.Proto.Emit.Overlay.{overlay}
use tatcoin.Proto.Params
use tatcoin.Proto.Params.{Params, no_params}
use tatcoin.Proto.Tx
use tatcoin.Proto.Tx.{MsgUpdateParams, new_msg, response, response_unmarshal}
use tatcoin.Proto.Tx.Marshal.{encoding, marshal_to_sized_buffer-encoding}
use tatcoin.Proto.Wire.Unknown.{Value, number, body, four}
use tatcoin.Proto.Message.Unknown.{fields_bytes}
use tatcoin.Proto.Tx.Unknown.{unmarshal-fields_bytes}
use tatcoin.Proto.Tx.RoundTrip.{merge, unmarshal-append, unmarshal-marshal_msg}
use tatcoin.Proto.Query
use tatcoin.Proto.Query.{QueryParamsResponse, request, request_unmarshal}
use tatcoin.Proto.Genesis
use tatcoin.Proto.Genesis.{GenesisState}
use tatcoin.Proto.Module
use tatcoin.Proto.Module.{Module, new_module}
use tatcoin.Proto.Totality.{every_unmarshal-Ends}

-- "gov" and "val"
abbrev gov_msg : MsgUpdateParams
gov_msg = record { authority = 103 ∷ 111 ∷ 118 ∷ []; params = no_params }

abbrev val_msg : MsgUpdateParams
val_msg = record { authority = 118 ∷ 97 ∷ 108 ∷ []; params = no_params }

-- a message with an unknown field 3 and a wrong length
abbrev odd_bytes : List ℕ
odd_bytes = 0x18 ∷ 0x96 ∷ 0x01 ∷ 0xa ∷ 0x09 ∷ 0x61 ∷ []

abbrev gov_module : Module
gov_module = record { authority = 103 ∷ 111 ∷ 118 ∷ [] }

abbrev gov_genesis : GenesisState
gov_genesis = record { params = no_params }

abbrev gov_answer : QueryParamsResponse
gov_answer = record { params = no_params }

abbrev four_zeros : List ℕ
four_zeros = 0 ∷ 0 ∷ 0 ∷ 0 ∷ []

unmarshal-marshal_msg_example : (Tx.marshal gov_msg >>= λ bs. Tx.unmarshal bs new_msg) ≡ ok gov_msg
unmarshal-marshal_msg_example = unmarshal-marshal_msg gov_msg (omega arith)

unmarshal-append_example :
    Tx.unmarshal (encoding gov_msg ++ encoding val_msg) new_msg
    ≡ ok (merge (merge new_msg gov_msg) val_msg)
unmarshal-append_example =
    unmarshal-append gov_msg val_msg new_msg (omega arith) (omega arith) (omega arith)

-- the fields 3, 90 and 5000 of a later version
abbrev later_fields : List (ℕ × Value)
later_fields = (3, number 150) ∷ (90, body (97 ∷ 98 ∷ [])) ∷ []

abbrev last_fields : List (ℕ × Value)
last_fields = (5000, four (1 ∷ 2 ∷ 3 ∷ 4 ∷ [])) ∷ []

unmarshal-fields_bytes_example :
    Tx.unmarshal
      (fields_bytes later_fields ++ (encoding gov_msg ++ fields_bytes last_fields))
      new_msg
    ≡ ok gov_msg
unfolding encoding groups
unmarshal-fields_bytes_example =
    unmarshal-fields_bytes gov_msg later_fields last_fields
      (omega arith, omega arith, omega arith, (omega arith, omega arith, omega arith, tt))
      (omega arith, omega arith, refl, tt) (omega arith) (omega arith)

every_unmarshal-Ends_example :
    Ends (Tx.unmarshal odd_bytes new_msg)
    × Ends (response_unmarshal odd_bytes response)
    × Ends (request_unmarshal odd_bytes request)
    × Ends (Query.unmarshal odd_bytes gov_answer)
    × Ends (Genesis.unmarshal odd_bytes gov_genesis)
    × Ends (Params.unmarshal odd_bytes no_params)
    × Ends (Module.unmarshal odd_bytes gov_module)
every_unmarshal-Ends_example =
    every_unmarshal-Ends odd_bytes new_msg response request gov_answer gov_genesis no_params
      gov_module (omega arith)

marshal_to_sized_buffer-encoding_example :
    Tx.marshal_to_sized_buffer gov_msg (four_zeros ++ four_zeros)
    ≡ ok (overlay (four_zeros ++ four_zeros) (encoding gov_msg) 8, length (encoding gov_msg))
unfolding encoding groups
marshal_to_sized_buffer-encoding_example =
    marshal_to_sized_buffer-encoding gov_msg (four_zeros ++ four_zeros) (omega arith) (omega arith)

read_varint-varint_example : read_varint tx (7 ∷ varint 300) 1 ≡ ok (300, 1 + length (varint 300))
unfolding groups
read_varint-varint_example = read_varint-varint tx (7 ∷ varint 300) [] 1 300 (omega arith) refl

encode_varint-varint_example :
    encode_varint (1 ∷ 0 ∷ 0 ∷ 2 ∷ []) 3 300 ≡ ok (1 ∷ (varint 300 ++ (2 ∷ [])), 1)
unfolding groups
encode_varint-varint_example =
    encode_varint-varint (1 ∷ []) (0 ∷ 0 ∷ []) (2 ∷ []) 3 300 (omega arith) refl refl

skip-Skips_example : Skips (skip tx odd_bytes)
skip-Skips_example = skip-Skips tx odd_bytes (omega arith)
