-- ===== src/Proto/Message.antt =====
-- The shape that every generated Marshal and Unmarshal method has, over a message's own fields.
pub mod Marshal
pub mod Ends
pub mod Reads
pub mod Unknown
use tatcoin.Base.{
  ℕ, zero, suc, ◌+◌, ◌-◌, ◌/◌, ◌%◌, ◌^◌, bit_and, ◌||◌, Option, none, some, List, ltb, leb, ◌==◌,
  if◌then◌else◌, length, take, drop, replicate, ◌++◌,
}
use tatcoin.Proto.Result.{PbFile, MessageName, FieldName, Result, ok, err, panic, stuck, ◌>>=◌}
use tatcoin.Proto.Result.Error.{
  invalid_length, unexpected_eof, end_group, illegal_tag, wrong_wire_type,
}
use tatcoin.Proto.Wire.{is_negative, read_varint, read_extent, slice, slice_from, skip}

-- A `case` of `switch fieldNum`: from the slice, the index behind the tag, the wire type and the
-- message so far, to the message and the index behind the field.
abbrev pub Field : Type 0 → Type 0
Field M = List ℕ → ℕ → ℕ → M → Result (M × ℕ)

-- `m.Authority = string(dAtA[iNdEx:postIndex])`
pub string_field : {M : Type 0} → PbFile → FieldName → (List ℕ → M → M) → Field M
string_field f name assign bs i wire_type m =
    if wire_type == 2
    then (read_extent f bs i >>= λ (start, post).
        slice bs start post >>= λ s. ok (assign s m, post))
    else err (wrong_wire_type wire_type name)

-- `m.Params.Unmarshal(dAtA[iNdEx:postIndex])`: the message in the field is read on top of itself.
pub message_field :
    {M P : Type 0} → PbFile → FieldName → (M → P) → (P → M → M) → (List ℕ → P → Result P) → Field M
message_field f name select assign inner bs i wire_type m =
    if wire_type == 2
    then (do
      (start, post) ← read_extent f bs i
      part ← slice bs start post
      p ← inner part (select m)
      ok (assign p m, post))
    else err (wrong_wire_type wire_type name)

-- The tests of what a skip returned.
pub check_skip : {M : Type 0} → PbFile → List ℕ → ℕ → M → ℕ → Result (M × ℕ)
check_skip f bs pre m skippy =
    if is_negative skippy || is_negative ((pre + skippy) % 2 ^ 64)
    then err (invalid_length f)
    else if ltb (length bs) (pre + skippy)
    then err unexpected_eof
    else ok (m, pre + skippy)

-- `default`: the index goes back to the tag, and the whole field is skipped.
pub skip_field : {M : Type 0} → PbFile → List ℕ → ℕ → M → Result (M × ℕ)
skip_field f bs pre m = slice_from bs pre >>= skip f >>= check_skip f bs pre m

module _ {M : Type 0} (f : PbFile) (name : MessageName) (fields : ℕ → Option (Field M)) where
  -- The tests of the tag and the `switch`. `int32(wire >> 3)` is not positive if its 32 bits are 0
  -- or have the top bit set.
  pub dispatch : List ℕ → ℕ → ℕ → ℕ → M → Result (M × ℕ)
  dispatch bs pre i wire m =
      let field_num = wire / 8 % 2 ^ 32 in
      let wire_type = bit_and wire 0x7 in
      if wire_type == 4
      then err (end_group name)
      else if field_num == 0 || leb (2 ^ 31) field_num
      then err (illegal_tag name field_num wire)
      else elim (fields field_num) [
        | some field ↦ field bs i wire_type m
        | none ↦ skip_field f bs pre m
      ]

  -- One round of `for iNdEx < l`.
  pub unmarshal_round : List ℕ → ℕ → M → Result (M × ℕ)
  unmarshal_round bs i m = read_varint f bs i >>= λ (wire, j). dispatch bs i j wire m

  pub unmarshal_loop : ℕ → List ℕ → ℕ → M → Result M
  unmarshal_loop zero bs i m = stuck
  unmarshal_loop (suc fuel) bs i m =
      if ltb i (length bs)
      then (unmarshal_round bs i m >>= λ (m', i'). unmarshal_loop fuel bs i' m')
      else if ltb (length bs) i
      then err unexpected_eof
      else ok m

  -- A round takes a byte at least, so this many rounds are enough.
  pub unmarshal_into : List ℕ → M → Result M
  unmarshal_into bs m = unmarshal_loop (length bs + 1) bs 0 m

-- `MarshalTo`: `dAtA[:size]` is a panic where the buffer is shorter.
pub marshal_into : ℕ → (List ℕ → Result (List ℕ × ℕ)) → List ℕ → Result (List ℕ × ℕ)
marshal_into size write buf =
    if ltb (length buf) size
    then panic
    else (write (take size buf) >>= λ (front, n). ok (take size front ++ drop size buf, n))

-- `Marshal`: a fresh buffer of `size` zeros, of which the first `n` bytes are returned.
pub marshal_fresh : ℕ → (List ℕ → Result (List ℕ × ℕ)) → Result (List ℕ)
marshal_fresh size write = write (take size (replicate size 0)) >>= λ (buf, n). ok (take n buf)
