-- ===== src/Proto/Emit/Varint.antt =====
-- The varints that are written: sovTx and encodeVarintTx.
use tatcoin.Base.{
  ℕ, zero, suc, ◌+◌, ◌*◌, ◌/◌, ◌%◌, ◌^◌, ◌≤◌, ◌<◌, bit_or, ◌≡◌, refl, ◌∙◌, ap, sym, length-eq-zero,
  List, [], ◌∷◌, ◌++◌, ltb, length, length-append, Bool-cases, leb, bit_and, false, true, ltb→lt,
  ltb→le, inl, inr, arith,
}
use tatcoin.Base.Bits.{bit_and_127, bit_or_128, bit_or_1}
use tatcoin.Proto.Result.{ok}
use tatcoin.Proto.Varint.{groups, varint, length-groups, groups_small, groups_more}
use tatcoin.Proto.Emit.{
  len64_loop, len64, sov, set_at, step_back, encode_varint_loop, encode_varint,
}
use mathlib.Core.List.{append_assoc}
use native.Mathlib.Nat.{pow-suc}

len64_loop_fuel : (a b x : ℕ) → x < 2 ^ a → x < 2 ^ b → len64_loop a x ≡ len64_loop b x
unfolding len64_loop
len64_loop_fuel zero zero x p q = refl
len64_loop_fuel zero (suc b) x p q = ground arith
len64_loop_fuel (suc a) zero x p q = ground arith
len64_loop_fuel (suc a) (suc b) x p q =
    ground
      (arith, len64_loop_fuel a b (x / 2) (omega (arith, pow-suc 2 a)) (omega (arith, pow-suc 2 b)))

len64_loop_le : (a x : ℕ) → len64_loop a x ≤ a
unfolding len64_loop
len64_loop_le zero x = omega arith
len64_loop_le (suc a) x = ground (arith, len64_loop_le a (x / 2))

len64_loop_pos : (a x : ℕ) → 0 < x → 1 ≤ len64_loop (suc a) x
unfolding len64_loop
len64_loop_pos a x h = ground arith

len64_loop_step : (n x : ℕ) → 0 < x → len64_loop (suc n) x ≡ 1 + len64_loop n (x / 2)
unfolding len64_loop
len64_loop_step n x h = ground arith

abbrev seven : ℕ → ℕ
seven n = suc (suc (suc (suc (suc (suc (suc n))))))

-- Seven digits make a group.
len64_loop_group : (n x : ℕ) → 128 ≤ x → len64_loop (seven n) x ≡ 7 + len64_loop n (x / 128)
len64_loop_group n x h =
    let e : x / 128 ≡ x / 2 / 2 / 2 / 2 / 2 / 2 / 2 = omega arith in
    rw e (
      omega (
        arith,
        len64_loop_step _ x (omega arith),
        len64_loop_step _ (x / 2) (omega arith),
        len64_loop_step _ (x / 2 / 2) (omega arith),
        len64_loop_step _ (x / 2 / 2 / 2) (omega arith),
        len64_loop_step _ (x / 2 / 2 / 2 / 2) (omega arith),
        len64_loop_step _ (x / 2 / 2 / 2 / 2 / 2) (omega arith),
        len64_loop_step n (x / 2 / 2 / 2 / 2 / 2 / 2) (omega arith),
      ))

abbrev sevens : ℕ → ℕ
sevens zero = 7
sevens (suc k) = seven (sevens k)

wider : (x a : ℕ) → x < 2 ^ a → x < 2 ^ suc a
wider x a h = omega (arith, pow-suc 2 a)

small_fits : (k x : ℕ) → x < 128 → x < 2 ^ sevens k
small_fits zero x h = omega arith
small_fits (suc k) x h = search (wider, small_fits k x h) depth 9

-- Of a positive value, the digits in sevens, rounded up, are the groups.
digits-groups :
    (k x : ℕ) → 0 < x → x < 128 ^ suc k → (len64_loop (sevens k) x + 6) / 7 ≡ length (groups k x)
unfolding groups
digits-groups zero x p h = omega (arith, len64_loop_le 7 x, len64_loop_pos 6 x p)
digits-groups (suc k) x p h = elim (Bool-cases (ltb x 128)) [
  | inl small ↦ rw small (
      omega (
        arith,
        ltb→lt x 128 small,
        len64_loop_fuel (sevens (suc k)) 7 x (small_fits (suc k) x (ltb→lt x 128 small))
            (omega (arith, ltb→lt x 128 small)),
        len64_loop_le 7 x,
        len64_loop_pos 6 x p,
      ))
  | inr big ↦ rw big (
      omega (
        arith,
        ltb→le x 128 big,
        len64_loop_group (sevens k) x (ltb→le x 128 big),
        digits-groups k (x / 128) (omega (arith, ltb→le x 128 big)) (omega arith),
      ))
]

-- The lowest bit does not change the number of groups.
length-groups_odd : (k v : ℕ) → length (groups k (v / 2 * 2 + 1)) ≡ length (groups k v)
unfolding groups
length-groups_odd zero v = refl
length-groups_odd (suc k) v =
    let e : (v / 2 * 2 + 1) / 128 ≡ v / 128 = omega arith in rw e (ground arith)

-- `sov` of a uint64, computed from its bit length, is the number of bytes of its varint.
pub sov-varint : (v : ℕ) → v < 2 ^ 64 → sov v ≡ length (varint v)
unfolding sov len64
sov-varint v h = rw bit_or_1 (
    ap (λ d. (d + 6) / 7) (len64_loop_fuel 64 70 (v / 2 * 2 + 1) (omega arith) (omega arith))
    ∙ digits-groups 9 (v / 2 * 2 + 1) (omega arith) (omega arith)
    ∙ length-groups_odd 9 v)

-- A write between two parts of a buffer.
pub set_at-append :
    (pre post : List ℕ) (x v i : ℕ)
    → i ≡ length pre
    → set_at (pre ++ (x ∷ post)) i v ≡ ok (pre ++ (v ∷ post))
set_at-append [] post x v zero e = refl
set_at-append [] post x v (suc i) e = absurd (omega arith)
set_at-append (y ∷ pre) post x v zero e = absurd (omega arith)
set_at-append (y ∷ pre) post x v (suc i) e = rw (set_at-append pre post x v i (omega arith))

low_group : (v : ℕ) → bit_or (bit_and v 127) 128 % 256 ≡ v % 128 + 128
low_group v =
    omega (arith, bit_and_127 v, bit_or_128 (bit_and v 127) (omega (arith, bit_and_127 v)))

encode_last :
    (n : ℕ) (pre post : List ℕ) (x v i : ℕ)
    → v < 128
    → i ≡ length pre
    → encode_varint_loop (suc n) (pre ++ (x ∷ post)) i v ≡ ok (pre ++ (v ∷ post))
unfolding encode_varint_loop
encode_last n pre post x v i h e =
    let small : leb 128 v ≡ false = ground arith in
    let byte : v % 256 ≡ v = omega arith in rw (small, byte) (set_at-append pre post x v i e)

encode_more :
    (n : ℕ) (pre post : List ℕ) (x v i : ℕ)
    → 128 ≤ v
    → i ≡ length pre
    → encode_varint_loop (suc n) (pre ++ (x ∷ post)) i v
      ≡ encode_varint_loop n (pre ++ ((v % 128 + 128) ∷ post)) (i + 1) (v / 128)
unfolding encode_varint_loop
encode_more n pre post x v i h e =
    let big : leb 128 v ≡ true = ground arith in
    rw (big, low_group v, set_at-append pre post x (v % 128 + 128) i e)

-- The loop fills a gap that is as long as the groups.
encode_varint_loop-groups :
    (k n : ℕ) (pre gap post : List ℕ) (i v : ℕ)
    → k < n
    → v < 128 ^ suc k
    → length gap ≡ length (groups k v)
    → i ≡ length pre
    → encode_varint_loop n (pre ++ (gap ++ post)) i v ≡ ok (pre ++ (groups k v ++ post))
encode_varint_loop-groups k zero pre gap post i v hn hv hl hi = absurd (omega arith)
encode_varint_loop-groups k (suc n) pre [] post i v hn hv hl hi =
    absurd (omega (arith, length-groups k v))
encode_varint_loop-groups zero (suc n) pre (x ∷ []) post i v hn hv hl hi =
    unfold groups in encode_last n pre post x v i (omega arith) hi
encode_varint_loop-groups zero (suc n) pre (x ∷ y ∷ gap) post i v hn hv hl hi =
    absurd (omega (arith, length-groups 0 v))
encode_varint_loop-groups (suc k) (suc n) pre (x ∷ gap) post i v hn hv hl hi =
    elim (Bool-cases (ltb v 128)) [
      | inl small ↦
          let h : v < 128 = ltb→lt v 128 small in
          let e : groups (suc k) v ≡ v ∷ [] = groups_small (suc k) v h in
          let l : length gap ≡ 0 = omega (arith, ap length e) in
          rw (e, length-eq-zero gap l) (encode_last n pre post x v i h hi)
      | inr big ↦
          let h : 128 ≤ v = ltb→le v 128 big in
          let e : groups (suc k) v ≡ (v % 128 + 128) ∷ groups k (v / 128) = groups_more k v h in
          let b : List ℕ = (v % 128 + 128) ∷ [] in
          rw e (
            encode_more n pre (gap ++ post) x v i h hi
            ∙ ap (λ t. encode_varint_loop n t (i + 1) (v / 128))
                (sym (append_assoc pre b (gap ++ post)))
            ∙ encode_varint_loop-groups k n (pre ++ b) gap post (i + 1) (v / 128) (omega arith)
                (omega arith) (omega (arith, ap length e)) (omega (arith, length-append pre b))
            ∙ ap ok (append_assoc pre b (groups k (v / 128) ++ post)))
    ]

-- `encode_varint` of a uint64 writes its varint into the gap of that length before `offset`, leaves
-- the bytes before and behind the gap alone, and returns the start of the gap.
pub encode_varint-varint :
    (pre gap post : List ℕ) (offset v : ℕ)
    → v < 2 ^ 64
    → length gap ≡ length (varint v)
    → offset ≡ length pre + length gap
    → encode_varint (pre ++ (gap ++ post)) offset v ≡ ok (pre ++ (varint v ++ post), length pre)
unfolding encode_varint
encode_varint-varint pre gap post offset v hv hl ho =
    let base : step_back offset (sov v) ≡ ok (length pre) = ground (arith, sov-varint v hv) in
    rw (
      base,
      encode_varint_loop-groups 9 10 pre gap post (length pre) v (omega arith) (omega arith) hl
          refl,
    )
