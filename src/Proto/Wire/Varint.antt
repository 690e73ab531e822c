-- ===== src/Proto/Wire/Varint.antt =====
-- The varints that are read: what a varint in the slice gives.
use tatcoin.Base.{
  ℕ, zero, suc, ◌+◌, ◌*◌, ◌/◌, ◌%◌, ◌^◌, ◌≤◌, ◌<◌, ◌≡◌, ap, false, true, inl, inr, some, List, [],
  ◌∷◌, ◌++◌, ltb, leb, ltb→lt, ltb→le, Bool-cases, length, get_elem?, drop, get_elem?-drop,
  drop-suc, arith,
}
use tatcoin.Base.Bits.{bit_and_127, bit_or_shifted}
use tatcoin.Proto.Result.{PbFile, ok}
use tatcoin.Proto.Varint.{groups, varint, groups_small, groups_more}
use tatcoin.Proto.Wire.{or_group, read_varint_loop, read_varint}
use native.Mathlib.Numerals.{towards_suc}
use native.Mathlib.Nat.{div-add-mod, mod-eq_of_lt}

-- `|=` adds the group, since the bits of `acc` are below the shift.
or_group-eq-add :
    (acc b g shift : ℕ)
    → b % 128 ≡ g
    → acc < 2 ^ shift
    → g * 2 ^ shift < 2 ^ 64
    → or_group acc b shift ≡ acc + g * 2 ^ shift
or_group-eq-add acc b g shift e low fits =
    rw (bit_and_127, e, mod-eq_of_lt fits) (bit_or_shifted shift acc g low)

-- A byte below 128 ends the loop.
read_last :
    (f : PbFile) (bs : List ℕ) (fuel i shift acc w : ℕ)
    → get_elem? bs i ≡ some w
    → w < 128
    → shift < 64
    → acc < 2 ^ shift
    → acc + w * 2 ^ shift < 2 ^ 64
    → read_varint_loop f bs (suc fuel) i shift acc ≡ ok (acc + w * 2 ^ shift, i + 1)
unfolding read_varint_loop
read_last f bs fuel i shift acc w here small below low fits =
    let more : leb 64 shift ≡ false = ground arith in
    let last : ltb w 128 ≡ true = ground arith in
    rw (more, here, last, or_group-eq-add acc w w shift (omega arith) low (omega arith))

-- A byte from 128 on gives a group and goes on.
read_more :
    (f : PbFile) (bs : List ℕ) (fuel i shift acc g : ℕ)
    → get_elem? bs i ≡ some (g + 128)
    → g < 128
    → shift < 64
    → acc < 2 ^ shift
    → acc + g * 2 ^ shift < 2 ^ 64
    → read_varint_loop f bs (suc fuel) i shift acc
      ≡ read_varint_loop f bs fuel (i + 1) (shift + 7) (acc + g * 2 ^ shift)
unfolding read_varint_loop
read_more f bs fuel i shift acc g here small below low fits =
    let more : leb 64 shift ≡ false = ground arith in
    let high : ltb (g + 128) 128 ≡ false = ground arith in
    rw (more, here, high, or_group-eq-add acc (g + 128) g shift (omega arith) low (omega arith))

two_pow_seven : (s : ℕ) → 2 ^ (s + 7) ≡ 128 * 2 ^ s
two_pow_seven s = simp towards_suc (omega arith)

-- The lowest group of `v`, and the others.
low_and_high : (v s : ℕ) → v * 2 ^ s ≡ v % 128 * 2 ^ s + v / 128 * 2 ^ (s + 7)
low_and_high v s = omega (
  arith,
  ap (λ (t : ℕ). t * 2 ^ s) (div-add-mod v 128),
  ap (λ (t : ℕ). v / 128 * t) (two_pow_seven s),
)

next_below : (acc g s : ℕ) → acc < 2 ^ s → g < 128 → acc + g * 2 ^ s < 2 ^ (s + 7)
next_below acc g s h k = grind (arith, two_pow_seven s)

-- One round on the lowest group of `v`, given what the other groups come to.
read_group :
    (f : PbFile) (bs : List ℕ) (fuel i shift acc v n : ℕ)
    → get_elem? bs i ≡ some (v % 128 + 128)
    → shift < 64
    → acc < 2 ^ shift
    → acc + v * 2 ^ shift < 2 ^ 64
    → read_varint_loop f bs fuel (i + 1) (shift + 7) (acc + v % 128 * 2 ^ shift)
      ≡ ok (acc + v % 128 * 2 ^ shift + v / 128 * 2 ^ (shift + 7), i + 1 + n)
    → read_varint_loop f bs (suc fuel) i shift acc ≡ ok (acc + v * 2 ^ shift, i + suc n)
read_group f bs fuel i shift acc v n here below low fits others =
    let sum : acc + v % 128 * 2 ^ shift + v / 128 * 2 ^ (shift + 7) ≡ acc + v * 2 ^ shift =
      omega (arith, low_and_high v shift) in
    let index : i + 1 + n ≡ i + suc n = omega arith in
    rw (
      read_more f bs fuel i shift acc (v % 128) here (omega arith) below low
          (omega (arith, low_and_high v shift)),
      others,
      sum,
      index,
    )

-- The loop on the groups of `v`, from a shift of 7 * j on.
read_varint_loop-groups :
    (f : PbFile) (bs rest : List ℕ) (k fuel i j acc v : ℕ)
    → drop i bs ≡ groups k v ++ rest
    → k < fuel
    → v < 128 ^ suc k
    → k + j ≤ 9
    → acc < 2 ^ (7 * j)
    → acc + v * 2 ^ (7 * j) < 2 ^ 64
    → read_varint_loop f bs fuel i (7 * j) acc ≡ ok (acc + v * 2 ^ (7 * j), i + length (groups k v))
read_varint_loop-groups f bs rest k zero i j acc v e hf hv hj low fits = absurd (omega arith)
read_varint_loop-groups f bs rest zero (suc fuel) i j acc v e hf hv hj low fits =
    unfold groups in
    read_last f bs fuel i (7 * j) acc v (get_elem?-drop bs i v rest e) (omega arith) (omega arith)
      low fits
read_varint_loop-groups f bs rest (suc k) (suc fuel) i j acc v e hf hv hj low fits =
    elim (Bool-cases (ltb v 128)) [
      | inl small ↦
          let h : v < 128 = ltb→lt v 128 small in
          let one : groups (suc k) v ≡ v ∷ [] = groups_small (suc k) v h in
          rw one (
            read_last f bs fuel i (7 * j) acc v (get_elem?-drop bs i v rest (rw one at e)) h
              (omega arith) low fits)
      | inr big ↦
          let more : groups (suc k) v ≡ (v % 128 + 128) ∷ groups k (v / 128) =
            groups_more k v (ltb→le v 128 big) in
          let e' : drop i bs ≡ (v % 128 + 128) ∷ (groups k (v / 128) ++ rest) = rw more at e in
          let tail : drop (i + 1) bs ≡ groups k (v / 128) ++ rest =
            let next : i + 1 ≡ suc i = omega arith in rw next (drop-suc bs i _ _ e') in
          let shift : 7 * j + 7 ≡ 7 * (j + 1) = omega arith in
          rw more (
            read_group f bs fuel i (7 * j) acc v (length (groups k (v / 128)))
              (get_elem?-drop bs i _ _ e') (omega arith) low fits
              (rw shift (
                read_varint_loop-groups f bs rest k fuel (i + 1) (j + 1)
                  (acc + v % 128 * 2 ^ (7 * j)) (v / 128) tail (omega arith) (omega arith)
                  (omega arith) (rw (← shift) (next_below acc (v % 128) (7 * j) low (omega arith)))
                  (rw (← shift) (omega (arith, low_and_high v (7 * j)))))))
    ]

-- Where the varint of a uint64 stands in a slice, `read_varint` gives the number and the index
-- behind it.
pub read_varint-varint :
    (f : PbFile) (bs rest : List ℕ) (i v : ℕ)
    → v < 2 ^ 64
    → drop i bs ≡ varint v ++ rest
    → read_varint f bs i ≡ ok (v, i + length (varint v))
unfolding read_varint
read_varint-varint f bs rest i v h e =
    let value : 0 + v * 2 ^ (7 * 0) ≡ v = omega arith in
    rw value at (
      read_varint_loop-groups f bs rest 9 11 i 0 0 v e (omega arith) (omega arith) (omega arith)
        (omega arith) (omega arith))
