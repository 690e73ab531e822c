-- ===== src/Proto/Emit.antt =====
-- The writing side of the *.pb.go files: varints and strings go into a buffer from its end.
-- An index that would be negative is a panic at once; in Go the access that follows it panics.
pub mod Varint
pub mod Fields
pub mod Overlay
use tatcoin.Base.{
  ℕ, zero, suc, ◌+◌, ◌-◌, ◌/◌, ◌%◌, bit_and, bit_or, List, [], ◌∷◌, ◌++◌, ltb, leb, if◌then◌else◌,
  length, take, drop,
}
use tatcoin.Proto.Result.{Result, ok, panic, stuck, ◌>>=◌}

-- `bits.Len64`: the number of binary digits; 64 rounds are enough for a uint64.
pub len64_loop : ℕ → ℕ → ℕ
len64_loop zero x = 0
len64_loop (suc fuel) x = let rest = len64_loop fuel (x / 2) in if ltb 0 x then 1 + rest else 0

pub len64 : ℕ → ℕ
len64 = len64_loop 64

-- `sovTx` and its four copies
pub sov : ℕ → ℕ
sov x = (len64 (bit_or x 1) + 6) / 7

-- `dAtA[i] = v`
abbrev pub set_at : List ℕ → ℕ → ℕ → Result (List ℕ)
set_at [] i v = panic
set_at (x ∷ xs) zero v = ok (v ∷ xs)
set_at (x ∷ xs) (suc i) v = set_at xs i v >>= λ ys. ok (x ∷ ys)

-- `i -= n`
abbrev pub step_back : ℕ → ℕ → Result ℕ
step_back i n = if ltb i n then panic else ok (i - n)

-- `copy(dAtA[i:], s)`: as much of `s` as there is room for.
abbrev pub copy_at : List ℕ → ℕ → List ℕ → List ℕ
copy_at buf i s = take i buf ++ (take (length buf - i) s ++ drop (i + length s) buf)

-- `for v >= 1<<7`, and the last byte; ten rounds are enough for a uint64.
pub encode_varint_loop : ℕ → List ℕ → ℕ → ℕ → Result (List ℕ)
encode_varint_loop zero buf offset v = stuck
encode_varint_loop (suc fuel) buf offset v =
    let more = set_at buf offset (bit_or (bit_and v 0x7f) 0x80 % 256) >>= λ buf'.
    encode_varint_loop fuel buf' (offset + 1) (v / 128) in
    if leb 128 v then more else set_at buf offset (v % 256)

-- `encodeVarintTx` and its four copies: the buffer, and the index of the first byte.
pub encode_varint : List ℕ → ℕ → ℕ → Result (List ℕ × ℕ)
encode_varint buf offset v = do
  base ← step_back offset (sov v)
  buf' ← encode_varint_loop 10 buf base v
  ok (buf', base)

-- The length of a field and, before it, its tag.
pub put_header : ℕ → List ℕ → ℕ → ℕ → Result (List ℕ × ℕ)
put_header tag buf i len = do
  (buf', i1) ← encode_varint buf i len
  i2 ← step_back i1 1
  buf'' ← set_at buf' i2 tag
  ok (buf'', i2)

-- A string field: its bytes, its length and its tag, if it is not empty.
pub put_string : ℕ → List ℕ → List ℕ → ℕ → Result (List ℕ × ℕ)
put_string tag s buf i =
    if ltb 0 (length s)
    then (step_back i (length s) >>= λ i1. put_header tag (copy_at buf i1 s) i1 (length s))
    else ok (buf, i)

-- An embedded message: it writes itself into `dAtA[:i]`, then come its length and its tag.
pub put_message : ℕ → (List ℕ → Result (List ℕ × ℕ)) → List ℕ → ℕ → Result (List ℕ × ℕ)
put_message tag inner buf i = do
  (front, size) ← inner (take i buf)
  i1 ← step_back i size
  put_header tag (front ++ drop i buf) i1 size

-- `return len(dAtA) - i, nil`
abbrev pub written : List ℕ → ℕ → Result (List ℕ × ℕ)
written buf i = ok (buf, length buf - i)
