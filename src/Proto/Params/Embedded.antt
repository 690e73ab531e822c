-- ===== src/Proto/Params/Embedded.antt =====
-- Params as the only field of a message: GenesisState and QueryParamsResponse.
use tatcoin.Base.{
  ℕ, ◌+◌, ◌-◌, ◌≤◌, ◌≡◌, sym, Option, some, List, [], ◌++◌, length, length-append, length-eq-zero,
  arith,
}
use tatcoin.Proto.Result.{PbFile, MessageName, ok, ◌>>=◌}
use tatcoin.Proto.Result.FieldName.{params_field}
use tatcoin.Proto.Varint.{varint, length-groups}
use tatcoin.Proto.Emit.{written, sov, put_message}
use tatcoin.Proto.Emit.Varint.{sov-varint}
use tatcoin.Proto.Emit.Fields.{delimited}
use tatcoin.Proto.Emit.Overlay.{overlay, length-overlay, put_message-delimited}
use tatcoin.Proto.Wire.{IsSlice}
use tatcoin.Proto.Message.{Field, message_field, unmarshal_into}
use tatcoin.Proto.Message.Ends.{FieldSteps, message_field-Steps}
use tatcoin.Proto.Message.Reads.{
  Unmarshals-end, Unmarshals-round, unmarshal_into-Unmarshals, message_round, delimited_inside,
}
use tatcoin.Proto.Params.{Params, no_params, size, marshal_to_sized_buffer, unmarshal}
use tatcoin.Proto.Params.Codec.{unmarshal-Ends, unmarshal-nil}
use mathlib.Core.List.{append-nil}

-- The bytes of a message with the parameters as its field 1.
abbrev pub embedded : List ℕ
embedded = delimited 0xa []

pub size-embedded : (p : Params) → 1 + size p + sov (size p) ≡ length embedded
unfolding size
size-embedded no_params = omega (arith, sov-varint 0 (omega arith), length-append (varint 0) [])

-- The empty parameters write nothing at the end of what they are given.
pub params_write :
    (p : Params) (front g : List ℕ)
    → length g ≡ 0
    → marshal_to_sized_buffer p (front ++ g) ≡ ok (front ++ [], 0)
unfolding marshal_to_sized_buffer
params_write no_params front g h =
    let none_left : length (front ++ []) - length (front ++ []) ≡ 0 = omega arith in
    rw (length-eq-zero g h, none_left)

-- What such a message writes.
pub put-embedded :
    (p : Params) (buf : List ℕ)
    → length embedded ≤ length buf
    → (put_message 0xa (marshal_to_sized_buffer p) buf (length buf) >>= λ (buf', i). written buf' i)
      ≡ ok (overlay buf embedded (length buf), length embedded)
put-embedded p buf room =
    let put : put_message 0xa (marshal_to_sized_buffer p) buf (length buf)
        ≡ ok (overlay buf embedded (length buf), length buf - length embedded) =
      put_message-delimited 0xa [] buf (length buf) (omega arith) room (omega arith) _
        (params_write p) in
    let count : length (overlay buf embedded (length buf)) - (length buf - length embedded)
        ≡ length embedded =
      omega (arith, length-overlay buf embedded (length buf) room (omega arith)) in
    rw (put, count)

module _ {M : Type 0} (f : PbFile) (name : MessageName) (fields : ℕ → Option (Field M))
    (select : M → Params) (assign : Params → M → M)
    (known : fields 1 ≡ some (message_field f params_field select assign unmarshal)) where
  pub unmarshal-embedded :
      (m : M) → unmarshal_into f name fields embedded m ≡ ok (assign no_params m)
  unmarshal-embedded m =
      let small : IsSlice embedded =
        omega (arith, length-groups 9 0, length-append (varint 0) []) in
      let here : embedded ≡ embedded ++ [] = sym (append-nil embedded) in
      unmarshal_into-Unmarshals f name fields embedded m _ (
        Unmarshals-round f name fields embedded 0 _ m (assign no_params m) _
          (message_round f name fields embedded [] [] 0 0xa 1 m small (omega arith) (omega arith)
            (omega arith) (omega arith) here params_field select assign unmarshal no_params known
            (unmarshal-nil (select m)))
          (omega arith)
          (delimited_inside f name fields embedded [] [] 0 0xa 1 m small (omega arith) (omega arith)
            (omega arith) (omega arith) here)
          (Unmarshals-end f name fields embedded _ _ (omega arith)))

pub params_field-Steps :
    {M : Type 0} (f : PbFile) (select : M → Params) (assign : Params → M → M)
    → FieldSteps (message_field f params_field select assign unmarshal)
params_field-Steps f select assign =
    message_field-Steps f params_field select assign unmarshal unmarshal-Ends
