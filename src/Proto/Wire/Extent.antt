-- ===== src/Proto/Wire/Extent.antt =====
-- A field of wire type 2 that stands in a slice: where it is found, and its bytes.
use tatcoin.Base.{
  ℕ, ◌+◌, ◌-◌, ◌^◌, ◌≤◌, ◌<◌, ◌≡◌, refl, sym, ap, ◌∙◌, List, ◌++◌, length, length-append,
  length-drop, take, drop, take-append, drop-append, drop-drop, arith,
}
use tatcoin.Proto.Result.{PbFile, ok}
use tatcoin.Proto.Varint.{varint, length-groups}
use tatcoin.Proto.Wire.{IsSlice, slice, slice_from, read_extent, check_extent}
use tatcoin.Proto.Wire.Varint.{read_varint-varint}
use mathlib.Core.List.{append_assoc}

-- The suffix from behind a part that the slice holds at `i`.
pub drop-part :
    (bs part rest : List ℕ) (i : ℕ) → drop i bs ≡ part ++ rest → drop (i + length part) bs ≡ rest
drop-part bs part rest i e =
    sym (drop-drop (length part) i bs)
    ∙ ap (drop (length part)) e
    ∙ drop-append part rest (length part) refl

pub part_fits :
    (bs part rest : List ℕ) (i : ℕ)
    → drop i bs ≡ part ++ rest
    → 0 < length part
    → i + length part ≤ length bs
part_fits bs part rest i e pos =
    omega (arith, length-drop i bs, ap length e, length-append part rest)

pub slice-ok :
    (bs : List ℕ) (start post : ℕ)
    → start ≤ post
    → post ≤ length bs
    → slice bs start post ≡ ok (take (post - start) (drop start bs))
unfolding slice
slice-ok bs start post lo hi = ground arith

pub slice_from-ok :
    (bs : List ℕ) (start : ℕ) → start ≤ length bs → slice_from bs start ≡ ok (drop start bs)
unfolding slice_from
slice_from-ok bs start h = ground arith

-- The length in front of a body, and the body.
module _ (f : PbFile) (bs body rest : List ℕ) (i : ℕ) (small : IsSlice bs)
    (short : length body < 2 ^ 63) (here : drop i bs ≡ (varint (length body) ++ body) ++ rest) where
  unfoldable pub start : ℕ
  start = i + length (varint (length body))

  at_start : drop start bs ≡ body ++ rest
  unfolding start
  at_start =
      drop-part bs (varint (length body)) (body ++ rest) i
        (here ∙ append_assoc (varint (length body)) body rest)

  fits : start + length body ≤ length bs
  unfolding start
  fits = omega (
    arith,
    part_fits bs (varint (length body) ++ body) rest i here
        (omega (arith, length-append (varint (length body)) body, length-groups 9 (length body))),
    length-append (varint (length body)) body,
  )

  pub extent_read : read_extent f bs i ≡ ok (start, start + length body)
  unfolding read_extent check_extent start
  extent_read =
      rw
        (read_varint-varint f bs (body ++ rest) i (length body) (omega arith)
          (here ∙ append_assoc (varint (length body)) body rest))
        (ground (arith, fits))

  pub body_read : slice bs start (start + length body) ≡ ok body
  body_read =
      let n : start + length body - start ≡ length body = omega arith in
      slice-ok bs start (start + length body) (omega arith) fits
      ∙ ap ok (rw (n, at_start) (take-append body rest (length body) refl))
