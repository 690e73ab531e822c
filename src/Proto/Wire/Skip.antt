-- ===== src/Proto/Wire/Skip.antt =====
-- The skipping of unknown fields on slices that hold anything.
use tatcoin.Base.{
  ℕ, zero, suc, ◌+◌, ◌*◌, ◌%◌, ◌^◌, ◌≤◌, ◌<◌, ◌≡◌, inl, inr, List, ltb, Bool-cases, ltb→lt,
  Option-cases, length, get_elem?, ◌==◌, bit_and, if◌then◌else◌, arith,
}
use tatcoin.Proto.Result.{PbFile, Result, ok, err, panic, stuck, ◌>>=◌}
use tatcoin.Proto.Result.Error.{invalid_length}
use tatcoin.Proto.Wire.{
  read_varint, skip_varint_loop, skip_bytes, skip_value, skip_round, skip_loop, skip, is_negative,
  IsSlice,
}
use tatcoin.Proto.Wire.Bounds.{Reads, read_varint-Reads}

-- An index that moves forward, or an error.
abbrev pub Moves : ℕ → Result ℕ → Type 0
Moves i (ok j) = i ≤ j
Moves i (err e) = Unit
Moves i panic = ⊥
Moves i stuck = ⊥

skip_varint_loop-Moves :
    (f : PbFile) (bs : List ℕ) (fuel i start shift j : ℕ)
    → shift ≡ 7 * j
    → fuel + j ≡ 11
    → j ≤ 10
    → start ≤ i
    → Moves start (skip_varint_loop f bs fuel i shift)
unfolding skip_varint_loop
skip_varint_loop-Moves f bs zero i start shift j es h hj s = absurd (omega arith)
skip_varint_loop-Moves f bs (suc fuel) i start shift j es h hj s =
    elim (Option-cases (get_elem? bs i)) [
      | inl end ↦ rw end (ground arith)
      | inr (b, here) ↦
          rw here
            (ground (arith, skip_varint_loop-Moves f bs fuel (i + 1) start (shift + 7) (j + 1)))
    ]

skip_bytes-Moves : (f : PbFile) (bs : List ℕ) (i : ℕ) → IsSlice bs → Moves i (skip_bytes f bs i)
unfolding skip_bytes
skip_bytes-Moves f bs i small = go (read_varint f bs i) (read_varint-Reads f bs i)
  where
    go :
        (r : Result (ℕ × ℕ))
        → Reads bs i r
        → Moves i (
            r >>= λ (len, j).
            if is_negative len then err (invalid_length f) else ok ((j + len) % 2 ^ 64))
    go (ok (len, j)) h = ground arith
    go (err e) h = tt
    go panic h = h
    go stuck h = h

-- A round's result: the index has not gone back, whatever the depth.
abbrev pub Rounds : ℕ → Result (ℕ × ℕ) → Type 0
Rounds i (ok (j, depth)) = i ≤ j
Rounds i (err e) = Unit
Rounds i panic = ⊥
Rounds i stuck = ⊥

Moves-Rounds : (i depth : ℕ) (r : Result ℕ) → Moves i r → Rounds i (r >>= λ j. ok (j, depth))
Moves-Rounds i depth (ok j) h = h
Moves-Rounds i depth (err e) h = tt
Moves-Rounds i depth panic h = h
Moves-Rounds i depth stuck h = h

skip_value-Rounds :
    (f : PbFile) (bs : List ℕ) (wire_type i depth : ℕ)
    → IsSlice bs
    → i ≤ length bs
    → Rounds i (skip_value f bs wire_type i depth)
unfolding skip_value
skip_value-Rounds f bs wire_type i depth small inside = ground (
  arith,
  Moves-Rounds i depth (skip_varint_loop f bs 11 i 0) (
      skip_varint_loop-Moves f bs 11 i i 0 0 (omega arith) (omega arith) (omega arith)
        (omega arith)),
  Moves-Rounds i depth (skip_bytes f bs i) (skip_bytes-Moves f bs i small),
)

-- A round moves the index, and leaves it an int that is not negative.
abbrev pub Advances : ℕ → Result (ℕ × ℕ) → Type 0
Advances i (ok (j, depth)) = (i < j) × (j < 2 ^ 63)
Advances i (err e) = Unit
Advances i panic = ⊥
Advances i stuck = ⊥

check_index-Advances :
    (f : PbFile) (i j : ℕ) (r : Result (ℕ × ℕ))
    → i < j
    → Rounds j r
    → Advances i
        (r >>= λ (i', depth'). if is_negative i' then err (invalid_length f) else ok (i', depth'))
check_index-Advances f i j (ok (i', depth')) lt h = ground arith
check_index-Advances f i j (err e) lt h = tt
check_index-Advances f i j panic lt h = h
check_index-Advances f i j stuck lt h = h

skip_round-Advances :
    (f : PbFile) (bs : List ℕ) (i depth : ℕ) → IsSlice bs → Advances i (skip_round f bs i depth)
unfolding skip_round
skip_round-Advances f bs i depth small = go (read_varint f bs i) (read_varint-Reads f bs i)
  where
    go :
        (r : Result (ℕ × ℕ))
        → Reads bs i r
        → Advances i (
            r >>= λ (wire, j). skip_value f bs (bit_and wire 0x7) j depth >>= λ (i', depth').
            if is_negative i' then err (invalid_length f) else ok (i', depth'))
    go (ok (wire, j)) h =
        check_index-Advances f i j _ h.1
          (skip_value-Rounds f bs (bit_and wire 0x7) j depth small h.2)
    go (err e) h = tt
    go panic h = h
    go stuck h = h

-- A result is a positive int.
abbrev pub Skips : Result ℕ → Type 0
Skips (ok n) = (0 < n) × (n < 2 ^ 63)
Skips (err e) = Unit
Skips panic = ⊥
Skips stuck = ⊥

skip_loop-Skips :
    (f : PbFile) (bs : List ℕ) (fuel i depth : ℕ)
    → IsSlice bs
    → 0 < fuel
    → length bs < fuel + i
    → Skips (skip_loop f bs fuel i depth)
unfolding skip_loop
skip_loop-Skips f bs zero i depth small some_left h = absurd (omega arith)
skip_loop-Skips f bs (suc fuel) i depth small some_left h = elim (Bool-cases (ltb i (length bs))) [
  | inl inside ↦ rw inside (
      go (ltb→lt i (length bs) inside) (skip_round f bs i depth)
        (skip_round-Advances f bs i depth small) (λ i' d'. skip_loop-Skips f bs fuel i' d' small))
  | inr outside ↦ rw outside tt
]
  where
    go :
        i < length bs
        → (r : Result (ℕ × ℕ)) → Advances i r
        → ((i' d' : ℕ) → 0 < fuel → length bs < fuel + i' → Skips (skip_loop f bs fuel i' d'))
        → Skips (
            r >>= λ (i', depth').
            let more = skip_loop f bs fuel i' depth' in if depth' == 0 then ok i' else more)
    go lt (ok (i', depth')) a ih = ground (arith, ih i' depth' (omega arith) (omega arith))
    go lt (err e) a ih = tt
    go lt panic a ih = a
    go lt stuck a ih = a

-- On every slice of fewer than 2 ^ 63 bytes `skip` ends, in an error or in a count that is positive
-- and fits an int: it neither panics nor runs out of fuel.
pub skip-Skips : (f : PbFile) (bs : List ℕ) → IsSlice bs → Skips (skip f bs)
unfolding skip
skip-Skips f bs small = skip_loop-Skips f bs (length bs + 1) 0 0 small (omega arith) (omega arith)
