-- ===== src/Proto/Wire/Bounds.antt =====
-- The reading of varints and lengths on slices that hold anything.
use tatcoin.Base.{
  ℕ, zero, suc, ◌+◌, ◌*◌, ◌^◌, ◌≤◌, ◌<◌, ◌≡◌, inl, inr, List, Option-cases, length, get_elem?,
  get_elem?-lt, arith,
}
use tatcoin.Base.Bits.{bit_or-lt}
use tatcoin.Proto.Result.{PbFile, Result, ok, err, panic, stuck, ◌>>=◌}
use tatcoin.Proto.Wire.{or_group, read_varint_loop, read_varint, read_extent, check_extent, IsSlice}

-- A read that began at `i` has failed, or gives a uint64 and an index behind `i` in the slice.
abbrev pub Reads : List ℕ → ℕ → Result (ℕ × ℕ) → Type 0
Reads bs i (ok (v, j)) = (v < 2 ^ 64) × (i < j) × (j ≤ length bs)
Reads bs i (err e) = Unit
Reads bs i panic = ⊥
Reads bs i stuck = ⊥

or_group-lt : (acc b shift : ℕ) → acc < 2 ^ 64 → or_group acc b shift < 2 ^ 64
or_group-lt acc b shift h = bit_or-lt 64 _ _ h (omega arith)

read_varint_loop-Reads :
    (f : PbFile) (bs : List ℕ) (fuel i start shift j acc : ℕ)
    → shift ≡ 7 * j
    → fuel + j ≡ 11
    → j ≤ 10
    → acc < 2 ^ 64
    → start ≤ i
    → Reads bs start (read_varint_loop f bs fuel i shift acc)
unfolding read_varint_loop
read_varint_loop-Reads f bs zero i start shift j acc es h hj low s = absurd (omega arith)
read_varint_loop-Reads f bs (suc fuel) i start shift j acc es h hj low s =
    elim (Option-cases (get_elem? bs i)) [
      | inl end ↦ rw end (ground arith)
      | inr (b, here) ↦ rw here (
          ground (
            arith,
            get_elem?-lt bs i b here,
            or_group-lt acc b shift low,
            read_varint_loop-Reads f bs fuel (i + 1) start (shift + 7) (j + 1)
                (or_group acc b shift),
          ))
    ]

-- `read_varint` ends on every slice; a value is a uint64, and the index has moved within the slice.
pub read_varint-Reads : (f : PbFile) (bs : List ℕ) (i : ℕ) → Reads bs i (read_varint f bs i)
unfolding read_varint
read_varint-Reads f bs i =
    read_varint_loop-Reads f bs 11 i i 0 0 0 (omega arith) (omega arith) (omega arith) (omega arith)
      (omega arith)

-- A field that is read begins behind the index, and ends in the slice.
abbrev pub Extents : List ℕ → ℕ → Result (ℕ × ℕ) → Type 0
Extents bs i (ok (start, post)) = (i < start) × (start ≤ post) × (post ≤ length bs)
Extents bs i (err e) = Unit
Extents bs i panic = ⊥
Extents bs i stuck = ⊥

check_extent-Extents :
    (f : PbFile) (bs : List ℕ) (i len start : ℕ)
    → IsSlice bs
    → i < start
    → start ≤ length bs
    → Extents bs i (check_extent f bs len start)
unfolding check_extent
check_extent-Extents f bs i len start small lo hi = ground arith

-- On every slice of fewer than 2 ^ 63 bytes and at any index, the reading of a length ends, in an
-- error or in an extent that begins behind the index and ends within the slice.
pub read_extent-Extents :
    (f : PbFile) (bs : List ℕ) (i : ℕ) → IsSlice bs → Extents bs i (read_extent f bs i)
unfolding read_extent
read_extent-Extents f bs i small = go (read_varint f bs i) (read_varint-Reads f bs i)
  where
    go :
        (r : Result (ℕ × ℕ))
        → Reads bs i r
        → Extents bs i (r >>= λ (len, start). check_extent f bs len start)
    go (ok (len, start)) h = check_extent-Extents f bs i len start small h.1 h.2
    go (err e) h = tt
    go panic h = h
    go stuck h = h
