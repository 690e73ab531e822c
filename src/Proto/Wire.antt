-- ===== src/Proto/Wire.antt =====
-- The helpers that protoc-gen-gogo repeats in each *.pb.go file: varints, lengths, skipping.
-- A byte slice is a list of numbers, an index a number. A Go int or uint64 is its 64-bit pattern:
-- an int is negative from 2 ^ 63 on. The functions take the file whose sentinel errors they use.
pub mod Varint
pub mod Extent
pub mod Bounds
pub mod Skip
pub mod Unknown
use tatcoin.Base.{
  ℕ, zero, suc, ◌+◌, ◌-◌, ◌*◌, ◌%◌, ◌^◌, ◌<◌, bit_and, bit_or, Bool, ◌||◌, take, drop, none, some,
  List, ltb, leb, ◌==◌, if◌then◌else◌, length, get_elem?,
}
use tatcoin.Proto.Result.{PbFile, Result, ok, err, panic, stuck, ◌>>=◌}
use tatcoin.Proto.Result.Error.{int_overflow, invalid_length, unexpected_end_of_group}
use tatcoin.Proto.Result.Error.{unexpected_eof, illegal_wire_type}

-- The length of a Go slice is an int.
abbrev pub IsSlice : List ℕ → Type 0
IsSlice bs = length bs < 2 ^ 63

abbrev pub is_negative : ℕ → Bool
is_negative n = leb (2 ^ 63) n

-- `acc |= uint64(b&0x7F) << shift`
abbrev pub or_group : ℕ → ℕ → ℕ → ℕ
or_group acc b shift = bit_or acc (bit_and b 0x7f * 2 ^ shift % 2 ^ 64)

-- `for shift := uint(0); ; shift += 7`. That `iNdEx >= l` is that no byte stands at the index.
pub read_varint_loop : PbFile → List ℕ → ℕ → ℕ → ℕ → ℕ → Result (ℕ × ℕ)
read_varint_loop f bs zero i shift acc = stuck
read_varint_loop f bs (suc fuel) i shift acc =
    if leb 64 shift then err (int_overflow f) else elim (get_elem? bs i) [
      | none ↦ err unexpected_eof
      | some b ↦
          let more = read_varint_loop f bs fuel (i + 1) (shift + 7) (or_group acc b shift) in
          if ltb b 0x80 then ok (or_group acc b shift, i + 1) else more
    ]

-- The value and the index behind it. The shifts 0, 7, …, 63 and 70 make eleven rounds at most.
pub read_varint : PbFile → List ℕ → ℕ → Result (ℕ × ℕ)
read_varint f bs i = read_varint_loop f bs 11 i 0 0

-- `dAtA[start:post]`, and `dAtA[start:]`: a panic where the bounds are not in order within the slice, as
-- those of a negative int are not.
pub slice : List ℕ → ℕ → ℕ → Result (List ℕ)
slice bs start post =
    if ltb post start || ltb (length bs) post
    then panic
    else ok (take (post - start) (drop start bs))

pub slice_from : List ℕ → ℕ → Result (List ℕ)
slice_from bs start = if ltb (length bs) start then panic else ok (drop start bs)

-- The tests of a length against the index and the slice.
pub check_extent : PbFile → List ℕ → ℕ → ℕ → Result (ℕ × ℕ)
check_extent f bs len start =
    let post = (start + len) % 2 ^ 64 in
    if is_negative len
    then err (invalid_length f)
    else if is_negative post
    then err (invalid_length f)
    else if ltb (length bs) post
    then err unexpected_eof
    else ok (start, post)

-- The length of a field that stands behind its tag: where the field begins and where it ends.
pub read_extent : PbFile → List ℕ → ℕ → Result (ℕ × ℕ)
read_extent f bs i = read_varint f bs i >>= λ (len, start). check_extent f bs len start

-- `case 0` of a skip: a varint that is not kept.
pub skip_varint_loop : PbFile → List ℕ → ℕ → ℕ → ℕ → Result ℕ
skip_varint_loop f bs zero i shift = stuck
skip_varint_loop f bs (suc fuel) i shift =
    if leb 64 shift then err (int_overflow f) else elim (get_elem? bs i) [
      | none ↦ err unexpected_eof
      | some b ↦
          let more = skip_varint_loop f bs fuel (i + 1) (shift + 7) in
          if ltb b 0x80 then ok (i + 1) else more
    ]

-- `length |= (int(b) & 0x7F) << shift`, then `iNdEx += length`
pub skip_bytes : PbFile → List ℕ → ℕ → Result ℕ
skip_bytes f bs i = do
  (len, j) ← read_varint f bs i
  if is_negative len then err (invalid_length f) else ok ((j + len) % 2 ^ 64)

-- The `switch wireType`: the index and the depth after it.
pub skip_value : PbFile → List ℕ → ℕ → ℕ → ℕ → Result (ℕ × ℕ)
skip_value f bs wire_type i depth =
    if wire_type == 0
    then (do j ← skip_varint_loop f bs 11 i 0; ok (j, depth))
    else if wire_type == 1
    then ok ((i + 8) % 2 ^ 64, depth)
    else if wire_type == 2
    then (do j ← skip_bytes f bs i; ok (j, depth))
    else if wire_type == 3
    then ok (i, depth + 1)
    else if wire_type == 4
    then if depth == 0 then err (unexpected_end_of_group f) else ok (i, depth - 1)
    else if wire_type == 5
    then ok ((i + 4) % 2 ^ 64, depth)
    else err (illegal_wire_type wire_type)

-- One round of the loop: the tag, the value, and the test of the index.
pub skip_round : PbFile → List ℕ → ℕ → ℕ → Result (ℕ × ℕ)
skip_round f bs i depth = do
  (wire, j) ← read_varint f bs i
  (i', depth') ← skip_value f bs (bit_and wire 0x7) j depth
  if is_negative i' then err (invalid_length f) else ok (i', depth')

-- `for iNdEx < l`; a round takes a byte at least.
pub skip_loop : PbFile → List ℕ → ℕ → ℕ → ℕ → Result ℕ
skip_loop f bs zero i depth = stuck
skip_loop f bs (suc fuel) i depth =
    if ltb i (length bs)
    then (skip_round f bs i depth >>= λ (i', depth').
        let more = skip_loop f bs fuel i' depth' in if depth' == 0 then ok i' else more)
    else err unexpected_eof

-- `skipTx` and its four copies
pub skip : PbFile → List ℕ → Result ℕ
skip f bs = skip_loop f bs (length bs + 1) 0 0
