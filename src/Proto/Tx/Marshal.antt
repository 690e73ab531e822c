-- ===== src/Proto/Tx/Marshal.antt =====
-- What Marshal, MarshalTo and MarshalToSizedBuffer of MsgUpdateParams write.
use tatcoin.Base.{
  ℕ, ◌+◌, ◌-◌, ◌^◌, ◌≤◌, ◌<◌, ◌≡◌, List, [], ◌∷◌, ◌++◌, ltb, if◌then◌else◌, length, length-append,
  drop, arith,
}
use tatcoin.Proto.Result.{ok, panic}
use tatcoin.Proto.Varint.{groups, varint}
use tatcoin.Proto.Emit.{sov, put_string, put_message}
use tatcoin.Proto.Emit.Varint.{sov-varint}
use tatcoin.Proto.Emit.Fields.{delimited}
use tatcoin.Proto.Emit.Overlay.{
  overlay, string_bytes, length-overlay, overlay-overlay, put_string-bytes, put_message-delimited,
}
use tatcoin.Proto.Message.Marshal.{marshal_fresh-overlay, marshal_into-overlay}
use tatcoin.Proto.Params
use tatcoin.Proto.Params.Embedded.{params_write}
use tatcoin.Proto.Params.{Params, no_params}
use tatcoin.Proto.Tx.{MsgUpdateParams, size, marshal_to_sized_buffer, marshal, marshal_to}

-- The bytes that stand for a message: the authority, if there is one, then the empty parameters.
unfoldable pub encoding : MsgUpdateParams → List ℕ
encoding m = string_bytes 0xa m.authority ++ delimited 0x12 []

-- `Size` is the number of bytes.
pub size-encoding :
    (m : MsgUpdateParams) → length m.authority < 2 ^ 64 → size m ≡ length (encoding m)
unfolding size encoding Params.size groups
size-encoding m h = go m.params m.authority h
  where
    empty : sov 0 ≡ length (varint 0)
    empty = sov-varint 0 (omega arith)

    go :
        (p : Params) (s : List ℕ)
        → length s < 2 ^ 64
        → (let l = length s in
            (if ltb 0 l then 1 + l + sov l else 0) + (1 + Params.size p + sov (Params.size p)))
          ≡ length (string_bytes 0xa s ++ delimited 0x12 [])
    go no_params [] k = omega (arith, empty)
    go no_params (x ∷ s) k = ground (
      arith,
      empty,
      sov-varint (length (x ∷ s)) k,
      length-append (delimited 0xa (x ∷ s)) (delimited 0x12 []),
      length-append (varint (length (x ∷ s))) (x ∷ s),
    )

-- MarshalToSizedBuffer of a message with an authority of fewer than 2 ^ 64 bytes writes the
-- encoding at the end of any buffer that has room for it, keeps the rest of the buffer, and returns
-- the number of bytes.
pub marshal_to_sized_buffer-encoding :
    (m : MsgUpdateParams) (buf : List ℕ)
    → length m.authority < 2 ^ 64
    → length (encoding m) ≤ length buf
    → marshal_to_sized_buffer m buf
      ≡ ok (overlay buf (encoding m) (length buf), length (encoding m))
unfolding marshal_to_sized_buffer encoding
marshal_to_sized_buffer-encoding m buf short room =
    let s : List ℕ = string_bytes 0xa m.authority in
    let d : List ℕ = delimited 0x12 [] in
    let total : length (s ++ d) ≡ length s + length d = length-append s d in
    let below : length d ≤ length buf = omega arith in
    let params : put_message 0x12 (Params.marshal_to_sized_buffer m.params) buf (length buf)
        ≡ ok (overlay buf d (length buf), length buf - length d) =
      put_message-delimited 0x12 [] buf (length buf) (omega arith) below (omega arith) _
        (params_write m.params) in
    let len : length (overlay buf d (length buf)) ≡ length buf =
      length-overlay buf d (length buf) below (omega arith) in
    let string : put_string 0xa m.authority (overlay buf d (length buf)) (length buf - length d)
        ≡ ok (
          overlay (overlay buf d (length buf)) s (length buf - length d),
          length buf - length d - length s,
        ) =
      put_string-bytes 0xa m.authority _ _ short (omega arith) (omega arith) in
    let both : overlay (overlay buf d (length buf)) s (length buf - length d)
        ≡ overlay buf (s ++ d) (length buf) =
      overlay-overlay buf s d (length buf) (omega arith) (omega arith) in
    let count : length (overlay buf (s ++ d) (length buf)) - (length buf - length d - length s)
        ≡ length (s ++ d) =
      omega (arith, length-overlay buf (s ++ d) (length buf) room (omega arith)) in
    rw (params, string, both, count)

-- Marshal of a message with an authority of fewer than 2 ^ 64 bytes does not panic, and returns the
-- encoding.
pub marshal-encoding :
    (m : MsgUpdateParams) → length m.authority < 2 ^ 64 → marshal m ≡ ok (encoding m)
unfolding marshal
marshal-encoding m short =
    marshal_fresh-overlay (encoding m) _ (size m) (size-encoding m short)
      (λ buf room. marshal_to_sized_buffer-encoding m buf short room)

-- For an authority of fewer than 2 ^ 64 bytes, MarshalTo writes the encoding at the start of the
-- buffer, leaves what stands behind it and returns the number of bytes; a buffer that is too short
-- is a panic.
pub marshal_to-encoding :
    (m : MsgUpdateParams) (buf : List ℕ)
    → length m.authority < 2 ^ 64
    → marshal_to m buf ≡ (
        if ltb (length buf) (length (encoding m))
        then panic
        else ok (encoding m ++ drop (length (encoding m)) buf, length (encoding m)))
unfolding marshal_to
marshal_to-encoding m buf short =
    marshal_into-overlay (encoding m) _ (size m) buf (size-encoding m short)
      (λ b room. marshal_to_sized_buffer-encoding m b short room)
