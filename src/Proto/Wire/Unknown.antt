-- ===== src/Proto/Wire/Unknown.antt =====
-- A field of any number that stands in a slice, and what a skip makes of it.
use tatcoin.Base.{
  ℕ, zero, suc, ◌+◌, ◌*◌, ◌/◌, ◌%◌, ◌^◌, ◌≤◌, ◌<◌, ◌≡◌, refl, ap, ◌∙◌, bit_and, true, false, List,
  ◌++◌, ltb, leb, Bool-cases, Option-cases, inl, inr, get_elem?, length, length-append, drop, arith,
}
use tatcoin.Base.Bits.{bit_and_7}
use tatcoin.Proto.Result.{PbFile, Result, ok, ◌>>=◌}
use tatcoin.Proto.Varint.{varint, length-groups}
use tatcoin.Proto.Wire.{
  IsSlice, or_group, read_varint_loop, read_varint, skip_varint_loop, skip_bytes, skip_value,
  skip_round, skip_loop, skip,
}
use tatcoin.Proto.Wire.Extent.{drop-part, part_fits}
use tatcoin.Proto.Wire.Varint.{read_varint-varint}
use mathlib.Core.List.{append_assoc}

-- What a field can hold, but for groups: a number, eight bytes, a length and as many bytes, four bytes.
pub data Value : Type 0 where
  number : ℕ → Value
  eight : List ℕ → Value
  body : List ℕ → Value
  four : List ℕ → Value

abbrev pub wire_type : Value → ℕ
wire_type (number v) = 0
wire_type (eight bs) = 1
wire_type (body bs) = 2
wire_type (four bs) = 5

abbrev pub value_bytes : Value → List ℕ
value_bytes (number v) = varint v
value_bytes (eight bs) = bs
value_bytes (body bs) = varint (length bs) ++ bs
value_bytes (four bs) = bs

abbrev pub IsValue : Value → Type 0
IsValue (number v) = v < 2 ^ 64
IsValue (eight bs) = length bs ≡ 8
IsValue (body bs) = length bs < 2 ^ 63
IsValue (four bs) = length bs ≡ 4

-- The tag of a field, and the field.
abbrev pub tag_of : ℕ → Value → ℕ
tag_of n v = n * 8 + wire_type v

abbrev pub field_bytes : ℕ → Value → List ℕ
field_bytes n v = varint (tag_of n v) ++ value_bytes v

wire_type-le : (v : Value) → wire_type v ≤ 5
wire_type-le (number v) = omega arith
wire_type-le (eight bs) = omega arith
wire_type-le (body bs) = omega arith
wire_type-le (four bs) = omega arith

-- Skipping a varint is reading it and dropping the value.
skip_varint_loop-read :
    (f : PbFile) (bs : List ℕ) (fuel i shift acc : ℕ)
    → skip_varint_loop f bs fuel i shift
      ≡ (read_varint_loop f bs fuel i shift acc >>= λ (v, j). ok j)
unfolding skip_varint_loop read_varint_loop
skip_varint_loop-read f bs zero i shift acc = refl
skip_varint_loop-read f bs (suc fuel) i shift acc = elim (Bool-cases (leb 64 shift)) [
  | inl far ↦ rw far refl
  | inr near ↦ elim (Option-cases (get_elem? bs i)) [
    | inl end ↦ rw (near, end) refl
    | inr (b, here) ↦ elim (Bool-cases (ltb b 0x80)) [
      | inl last ↦ rw (near, here, last) refl
      | inr more ↦
          rw (near, here, more)
            (skip_varint_loop-read f bs fuel (i + 1) (shift + 7) (or_group acc b shift))
    ]
  ]
]

module _ (f : PbFile) (bs rest : List ℕ) (small : IsSlice bs) where
  number_skipped :
      (v i : ℕ)
      → v < 2 ^ 64
      → drop i bs ≡ varint v ++ rest
      → skip_varint_loop f bs 11 i 0 ≡ ok (i + length (varint v))
  unfolding read_varint
  number_skipped v i h here =
      skip_varint_loop-read f bs 11 i 0 0
      ∙ ap (λ (r : Result (ℕ × ℕ)). r >>= λ (v, j). ok j) (read_varint-varint f bs rest i v h here)

  body_skipped :
      (bytes : List ℕ) (i : ℕ)
      → length bytes < 2 ^ 63
      → drop i bs ≡ (varint (length bytes) ++ bytes) ++ rest
      → skip_bytes f bs i ≡ ok (i + length (varint (length bytes) ++ bytes))
  unfolding skip_bytes
  body_skipped bytes i h here =
      rw
        (read_varint-varint f bs (bytes ++ rest) i (length bytes) (omega arith)
          (here ∙ append_assoc (varint (length bytes)) bytes rest))
        (ground (
          arith,
          length-append (varint (length bytes)) bytes,
          length-groups 9 (length bytes),
          part_fits bs (varint (length bytes) ++ bytes) rest i here,
        ))

  -- Where the value of a field stands, the `switch` moves the index behind it.
  value_skipped :
      (v : Value) (i : ℕ)
      → IsValue v
      → drop i bs ≡ value_bytes v ++ rest
      → skip_value f bs (wire_type v) i 0 ≡ ok (i + length (value_bytes v), 0)
  unfolding skip_value
  value_skipped (number v) i h here = rw (number_skipped v i h here) refl
  value_skipped (eight bytes) i h here =
      let fits = part_fits bs bytes rest i here (omega arith) in
      let index : (i + 8) % 2 ^ 64 ≡ i + length bytes = omega arith in rw index refl
  value_skipped (body bytes) i h here = rw (body_skipped bytes i h here) refl
  value_skipped (four bytes) i h here =
      let fits = part_fits bs bytes rest i here (omega arith) in
      let index : (i + 4) % 2 ^ 64 ≡ i + length bytes = omega arith in rw index refl

-- The low three bits of a tag.
pub tag-wire_type : (n : ℕ) (v : Value) → bit_and (tag_of n v) 0x7 ≡ wire_type v
tag-wire_type n v = omega (arith, bit_and_7 (tag_of n v), wire_type-le v)

pub tag-field_num : (n : ℕ) (v : Value) → n < 2 ^ 29 → tag_of n v / 8 % 2 ^ 32 ≡ n
tag-field_num n v h = omega (arith, wire_type-le v)

pub tag_fits : (n : ℕ) (v : Value) → n < 2 ^ 29 → tag_of n v < 2 ^ 64
tag_fits n v h = omega (arith, wire_type-le v)

pub length-field_bytes : (n : ℕ) (v : Value) → 0 < length (field_bytes n v)
length-field_bytes n v =
    omega (arith, length-append (varint (tag_of n v)) (value_bytes v), length-groups 9 (tag_of n v))

module _ (f : PbFile) (rest : List ℕ) (n : ℕ) (v : Value)
    (small : IsSlice (field_bytes n v ++ rest)) (h : n < 2 ^ 29) (fine : IsValue v) where
  round-field_bytes : skip_round f (field_bytes n v ++ rest) 0 0 ≡ ok (length (field_bytes n v), 0)
  unfolding skip_round
  round-field_bytes =
      let bs : List ℕ = field_bytes n v ++ rest in
      let tag : List ℕ = varint (tag_of n v) in
      let size : length (field_bytes n v) ≡ length tag + length (value_bytes v) =
        length-append tag (value_bytes v) in
      let total : length bs ≡ length (field_bytes n v) + length rest =
        length-append (field_bytes n v) rest in
      let at_value : drop (0 + length tag) bs ≡ value_bytes v ++ rest =
        drop-part bs tag (value_bytes v ++ rest) 0 (append_assoc tag (value_bytes v) rest) in
      let index : 0 + length tag + length (value_bytes v) ≡ length (field_bytes n v) =
        omega (arith, size) in
      let inside : leb (2 ^ 63) (length (field_bytes n v)) ≡ false = ground (arith, total) in
      rw
        (
          read_varint-varint f bs (value_bytes v ++ rest) 0 (tag_of n v) (tag_fits n v h)
              (append_assoc tag (value_bytes v) rest),
          tag-wire_type n v,
          value_skipped f bs rest small v (0 + length tag) fine at_value,
          index,
          inside,
        )
        refl

  -- A skip at the tag of a field gives the length of the field.
  pub skip-field_bytes : skip f (field_bytes n v ++ rest) ≡ ok (length (field_bytes n v))
  unfolding skip skip_loop
  skip-field_bytes = enough (length (field_bytes n v ++ rest) + 1) (omega arith)
    where
      more : ltb 0 (length (field_bytes n v ++ rest)) ≡ true
      more = ground (arith, length-field_bytes n v, length-append (field_bytes n v) rest)

      enough :
          (fuel : ℕ)
          → 0 < fuel
          → skip_loop f (field_bytes n v ++ rest) fuel 0 0 ≡ ok (length (field_bytes n v))
      enough zero h = absurd (omega arith)
      enough (suc fuel) h = rw (more, round-field_bytes) refl
