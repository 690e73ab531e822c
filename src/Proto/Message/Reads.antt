-- ===== src/Proto/Message/Reads.antt =====
-- What the Unmarshal loop makes of the fields that stand in a slice.
use tatcoin.Base.{
  ℕ, zero, suc, ◌+◌, ◌*◌, ◌/◌, ◌%◌, ◌^◌, ◌≤◌, ◌<◌, ◌||◌, bit_and, ◌≡◌, ap, Option, some, true,
  false, List, [], ◌∷◌, ◌++◌, ltb, leb, ◌==◌, length, length-append, drop, arith,
}
use tatcoin.Base.Bits.{bit_and_7}
use tatcoin.Proto.Result.{PbFile, MessageName, FieldName, Result, ok}
use tatcoin.Proto.Varint.{varint, groups_small}
use tatcoin.Proto.Emit.Fields.{delimited}
use tatcoin.Proto.Wire.{IsSlice, read_varint}
use tatcoin.Proto.Wire.Extent.{start, drop-part, part_fits, extent_read, body_read}
use tatcoin.Proto.Wire.Varint.{read_varint-varint}
use tatcoin.Proto.Message.{
  Field, string_field, message_field, dispatch, unmarshal_round, unmarshal_loop, unmarshal_into,
}

module _ {M : Type 0} (f : PbFile) (name : MessageName) (fields : ℕ → Option (Field M))
    (bs body rest : List ℕ) (i tag n : ℕ) (m : M) (small : IsSlice bs)
    (short : length body < 2 ^ 63) (delimits : tag ≡ 8 * n + 2) (one_byte : tag < 128)
    (positive : 0 < n) (here : drop i bs ≡ delimited tag body ++ rest) where
  tag_read : read_varint f bs i ≡ ok (tag, i + 1)
  tag_read =
      let one : varint tag ≡ tag ∷ [] = groups_small 9 tag one_byte in
      rw one at (
        read_varint-varint f bs ((varint (length body) ++ body) ++ rest) i tag (omega arith)
          (rw one here))

  behind_tag : drop (i + 1) bs ≡ (varint (length body) ++ body) ++ rest
  behind_tag = drop-part bs (tag ∷ []) ((varint (length body) ++ body) ++ rest) i here

  dispatched :
      (field : Field M)
      → fields n ≡ some field
      → dispatch f name fields bs i (i + 1) tag m ≡ field bs (i + 1) 2 m
  unfolding dispatch
  dispatched field known =
      let number : tag / 8 % 2 ^ 32 ≡ n = omega arith in
      let wire : bit_and tag 0x7 ≡ 2 = omega (arith, bit_and_7 tag) in
      let legal : (n == 0 || leb (2 ^ 31) n) ≡ false = ground arith in
      let group : (bit_and tag 0x7 == 4) ≡ false = rw wire in
      rw (group, number, legal, known) (ap (λ w. field bs (i + 1) w m) wire)

  end_index :
      start f bs body rest (i + 1) small short behind_tag + length body
      ≡ i + length (delimited tag body)
  unfolding start
  end_index = omega (arith, length-append (varint (length body)) body)

  -- A round on a string field.
  pub string_round :
      (field_name : FieldName) (assign : List ℕ → M → M)
      → fields n ≡ some (string_field f field_name assign)
      → unmarshal_round f name fields bs i m ≡ ok (assign body m, i + length (delimited tag body))
  unfolding unmarshal_round string_field
  string_round field_name assign known = rw (
    tag_read,
    dispatched _ known,
    extent_read f bs body rest (i + 1) small short behind_tag,
    body_read f bs body rest (i + 1) small short behind_tag,
    end_index,
  )

  -- A round on an embedded message.
  pub message_round :
      {P : Type 0} (field_name : FieldName) (select : M → P) (assign : P → M → M)
      (inner : List ℕ → P → Result P) (p : P)
      → fields n ≡ some (message_field f field_name select assign inner)
      → inner body (select m) ≡ ok p
      → unmarshal_round f name fields bs i m ≡ ok (assign p m, i + length (delimited tag body))
  unfolding unmarshal_round message_field
  message_round field_name select assign inner p known read = rw (
    tag_read,
    dispatched _ known,
    extent_read f bs body rest (i + 1) small short behind_tag,
    body_read f bs body rest (i + 1) small short behind_tag,
    read,
    end_index,
  )

  pub delimited_inside : i + length (delimited tag body) ≤ length bs
  delimited_inside = part_fits bs (delimited tag body) rest i here (omega arith)

module _ {M : Type 0} (f : PbFile) (name : MessageName) (fields : ℕ → Option (Field M)) where
  -- The loop from an index on, with any fuel that is enough.
  abbrev pub Unmarshals : List ℕ → ℕ → M → Result M → Type 0
  Unmarshals bs i m r =
      (fuel : ℕ) → length bs < fuel + i → unmarshal_loop f name fields fuel bs i m ≡ r

  pub Unmarshals-end : (bs : List ℕ) (i : ℕ) (m : M) → i ≡ length bs → Unmarshals bs i m (ok m)
  unfolding unmarshal_loop
  Unmarshals-end bs i m e zero h = absurd (omega arith)
  Unmarshals-end bs i m e (suc fuel) h = ground arith

  pub Unmarshals-round :
      (bs : List ℕ) (i i' : ℕ) (m m' : M) (r : Result M)
      → unmarshal_round f name fields bs i m ≡ ok (m', i')
      → i < i'
      → i' ≤ length bs
      → Unmarshals bs i' m' r
      → Unmarshals bs i m r
  unfolding unmarshal_loop
  Unmarshals-round bs i i' m m' r round lt inside next zero h = absurd (omega arith)
  Unmarshals-round bs i i' m m' r round lt inside next (suc fuel) h =
      let more : ltb i (length bs) ≡ true = ground arith in
      rw (more, round) (next fuel (omega arith))

  pub unmarshal_into-Unmarshals :
      (bs : List ℕ) (m : M) (r : Result M)
      → Unmarshals bs 0 m r
      → unmarshal_into f name fields bs m ≡ r
  unfolding unmarshal_into
  unmarshal_into-Unmarshals bs m r h = h (length bs + 1) (omega arith)
