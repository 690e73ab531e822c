-- ===== src/Proto/Message/Unknown.antt =====
-- The Unmarshal loop at fields that its message does not have.
use tatcoin.Base.{
  ℕ, ◌+◌, ◌%◌, ◌^◌, ◌≤◌, ◌<◌, ◌||◌, ◌≡◌, refl, ap, ◌∙◌, Option, none, false, List, [], ◌∷◌, ◌++◌,
  ltb, leb, ◌==◌, length, length-append, length-drop, drop, arith,
}
use tatcoin.Proto.Result.{PbFile, MessageName, Result, ok}
use tatcoin.Proto.Varint.{varint}
use tatcoin.Proto.Wire.{IsSlice}
use tatcoin.Proto.Wire.Extent.{drop-part, part_fits, slice_from-ok}
use tatcoin.Proto.Wire.Varint.{read_varint-varint}
use tatcoin.Proto.Wire.Unknown.{
  Value, IsValue, wire_type, value_bytes, tag_of, field_bytes, tag-wire_type, tag-field_num,
  tag_fits, length-field_bytes, skip-field_bytes,
}
use tatcoin.Proto.Message.{Field, dispatch, unmarshal_round, skip_field, check_skip}
use tatcoin.Proto.Message.Reads.{Unmarshals, Unmarshals-round}
use mathlib.Core.List.{append_assoc}

wire_type-group : (v : Value) → (wire_type v == 4) ≡ false
wire_type-group (Value.number v) = refl
wire_type-group (Value.eight bs) = refl
wire_type-group (Value.body bs) = refl
wire_type-group (Value.four bs) = refl

module _ {M : Type 0} (f : PbFile) (name : MessageName) (fields : ℕ → Option (Field M))
    (bs rest : List ℕ) (i n : ℕ) (v : Value) (m : M) (small : IsSlice bs) (positive : 0 < n)
    (h : n < 2 ^ 29) (unknown : fields n ≡ none) (fine : IsValue v)
    (here : drop i bs ≡ field_bytes n v ++ rest) where
  inside : i + length (field_bytes n v) ≤ length bs
  inside = part_fits bs (field_bytes n v) rest i here (length-field_bytes n v)

  skipped : skip_field f bs i m ≡ ok (m, i + length (field_bytes n v))
  unfolding skip_field check_skip
  skipped =
      let short : IsSlice (field_bytes n v ++ rest) =
        omega (arith, length-drop i bs, ap length here) in
      let skippy : leb (2 ^ 63) (length (field_bytes n v)) ≡ false = ground (arith, inside) in
      let next : leb (2 ^ 63) ((i + length (field_bytes n v)) % 2 ^ 64) ≡ false =
        ground (arith, inside) in
      let fits : ltb (length bs) (i + length (field_bytes n v)) ≡ false = ground (arith, inside) in
      rw
        (
          slice_from-ok bs i (omega (arith, inside)),
          here,
          skip-field_bytes f rest n v short h fine,
          skippy,
          next,
          fits,
        )
        refl

  -- A round on a field that the message does not have moves the index behind it.
  unknown_round : unmarshal_round f name fields bs i m ≡ ok (m, i + length (field_bytes n v))
  unfolding unmarshal_round dispatch
  unknown_round =
      let legal : (n == 0 || leb (2 ^ 31) n) ≡ false = ground arith in
      rw
        (
          read_varint-varint f bs (value_bytes v ++ rest) i (tag_of n v) (tag_fits n v h)
              (here ∙ append_assoc (varint (tag_of n v)) (value_bytes v) rest),
          tag-field_num n v h,
          tag-wire_type n v,
          wire_type-group v,
          legal,
          unknown,
          skipped,
        )
        refl

  pub read_unknown :
      (r : Result M)
      → Unmarshals f name fields bs (i + length (field_bytes n v)) m r
      → Unmarshals f name fields bs i m r
  read_unknown r next =
      Unmarshals-round f name fields bs i _ m m r unknown_round
        (omega (arith, length-field_bytes n v)) inside next

-- Fields one behind the other, and those that a message with the numbers below `least` does not have.
abbrev pub fields_bytes : List (ℕ × Value) → List ℕ
fields_bytes [] = []
fields_bytes ((n, v) ∷ us) = field_bytes n v ++ fields_bytes us

abbrev pub AreUnknown : ℕ → List (ℕ × Value) → Type 0
AreUnknown least [] = Unit {0}
AreUnknown least ((n, v) ∷ us) = (least ≤ n) × (n < 2 ^ 29) × IsValue v × AreUnknown least us

module _ {M : Type 0} (f : PbFile) (name : MessageName) (fields : ℕ → Option (Field M)) (least : ℕ)
    (positive : 0 < least) (unknown : (n : ℕ) → least ≤ n → fields n ≡ none) (bs rest : List ℕ)
    (small : IsSlice bs) where
  -- The loop passes over fields that the message does not have.
  pub read_unknowns :
      (us : List (ℕ × Value)) (i : ℕ) (m : M) (r : Result M)
      → AreUnknown least us
      → drop i bs ≡ fields_bytes us ++ rest
      → Unmarshals f name fields bs (i + length (fields_bytes us)) m r
      → Unmarshals f name fields bs i m r
  read_unknowns [] i m r are here next = let e : i + 0 ≡ i = omega arith in rw e at next
  read_unknowns ((n, v) ∷ us) i m r are here next =
      let at_field = here ∙ append_assoc (field_bytes n v) (fields_bytes us) rest in
      let index : i + length (field_bytes n v) + length (fields_bytes us)
          ≡ i + length (field_bytes n v ++ fields_bytes us) =
        omega (arith, length-append (field_bytes n v) (fields_bytes us)) in
      read_unknown f name fields bs (fields_bytes us ++ rest) i n v m small (omega arith) are.1
        (unknown n are.0) are.2 at_field r
        (read_unknowns us (i + length (field_bytes n v)) m r are.3
          (drop-part bs (field_bytes n v) (fields_bytes us ++ rest) i at_field) (rw index next))
