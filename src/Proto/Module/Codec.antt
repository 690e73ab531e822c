-- ===== src/Proto/Module/Codec.antt =====
-- The codec of Module (x/tatcore/types/module.pb.go).
use tatcoin.Base.{
  ℕ, ◌+◌, ◌^◌, ◌<◌, ◌≡◌, refl, ◌-◌, ltb, if◌then◌else◌, ◌≤◌, List, ◌==◌, Bool-cases, inl, inr,
  arith, ap, sym, [], ◌∷◌, length, length-append,
}
use tatcoin.Proto.Result.{ok, Ends, ◌>>=◌}
use tatcoin.Proto.Result.PbFile.{module_file}
use tatcoin.Proto.Result.MessageName.{module_message}
use tatcoin.Proto.Result.FieldName.{authority_field}
use tatcoin.Proto.Varint.{varint, length-groups}
use tatcoin.Proto.Emit.{sov}
use tatcoin.Proto.Emit.Varint.{sov-varint}
use tatcoin.Proto.Emit.Overlay.{string_bytes, overlay, length-overlay, put_string-bytes}
use tatcoin.Proto.Wire.{IsSlice}
use tatcoin.Proto.Message.{unmarshal_into}
use tatcoin.Proto.Message.Ends.{CaseSteps, string_field-Steps, unmarshal_into-Ends}
use tatcoin.Proto.Message.Marshal.{marshal_fresh-overlay}
use tatcoin.Proto.Message.Reads.{
  Unmarshals-end, Unmarshals-round, unmarshal_into-Unmarshals, string_round,
}
use tatcoin.Proto.Module.{
  Module, new_module, fields, size, marshal_to_sized_buffer, marshal, unmarshal,
}
use mathlib.Core.List.{append-nil}

fields-Steps : (n : ℕ) → CaseSteps (fields n)
fields-Steps n = elim (Bool-cases (n == 1)) [
  | inl one ↦
      rw one (string_field-Steps module_file authority_field (λ s m. record m { authority = s }))
  | inr other ↦ rw other tt
]

-- Unmarshal of a Module ends on every slice, in a message or an error.
pub unmarshal-Ends_module : (bs : List ℕ) (m : Module) → IsSlice bs → Ends (unmarshal bs m)
unfolding unmarshal
unmarshal-Ends_module bs m small =
    unmarshal_into-Ends module_file module_message fields fields-Steps bs m small

size-bytes :
    (m : Module) → length m.authority < 2 ^ 64 → size m ≡ length (string_bytes 0xa m.authority)
unfolding size
size-bytes m h = go m.authority h
  where
    go :
        (s : List ℕ)
        → length s < 2 ^ 64
        → (let l = length s in if ltb 0 l then 1 + l + sov l else 0) ≡ length (string_bytes 0xa s)
    go [] k = refl
    go (x ∷ s) k =
        ground
          (arith, sov-varint (length (x ∷ s)) k, length-append (varint (length (x ∷ s))) (x ∷ s))

-- Marshal of a Module gives the bytes of its authority, and none if that is empty.
pub marshal-bytes :
    (m : Module) → length m.authority < 2 ^ 64 → marshal m ≡ ok (string_bytes 0xa m.authority)
unfolding marshal marshal_to_sized_buffer
marshal-bytes m short = marshal_fresh-overlay bytes _ (size m) (size-bytes m short) (λ buf room.
    rw (put_string-bytes 0xa m.authority buf (length buf) short room (omega arith))
      (ap (λ n. ok (overlay buf bytes (length buf), n)) (count buf room)))
  where
    bytes : List ℕ
    bytes = string_bytes 0xa m.authority

    count :
        (buf : List ℕ)
        → length bytes ≤ length buf
        → length (overlay buf bytes (length buf)) - (length buf - length bytes) ≡ length bytes
    count buf room = omega (arith, length-overlay buf bytes (length buf) room (omega arith))

-- Unmarshal, called on the zero value, gives back any Module that was marshalled, if its authority
-- has fewer than 2 ^ 62 bytes.
pub unmarshal-marshal_module :
    (m : Module)
    → length m.authority < 2 ^ 62
    → (marshal m >>= λ bs. unmarshal bs new_module) ≡ ok m
unfolding unmarshal
unmarshal-marshal_module m short = rw (marshal-bytes m (omega arith)) (read m.authority short)
  where
    read :
        (s : List ℕ)
        → length s < 2 ^ 62
        → unmarshal_into module_file module_message fields (string_bytes 0xa s) new_module
          ≡ ok (record { authority = s })
    read [] h =
        unmarshal_into-Unmarshals module_file module_message fields [] new_module _
          (Unmarshals-end module_file module_message fields [] 0 new_module (omega arith))
    read (x ∷ s) h =
        let bs : List ℕ = string_bytes 0xa (x ∷ s) in
        let small : IsSlice bs = omega (
          arith,
          length-groups 9 (length (x ∷ s)),
          length-append (varint (length (x ∷ s))) (x ∷ s),
        ) in
        unmarshal_into-Unmarshals module_file module_message fields bs new_module _ (
          Unmarshals-round module_file module_message fields bs 0 _ new_module _ _
            (string_round module_file module_message fields bs (x ∷ s) [] 0 0xa 1 new_module small
              (omega arith) (omega arith) (omega arith) (omega arith) (sym (append-nil bs))
              authority_field (λ s m. record m { authority = s }) refl)
            (omega arith) (omega arith)
            (Unmarshals-end module_file module_message fields bs _ _ (omega arith)))
