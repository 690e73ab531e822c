-- ===== src/Proto/Tx/RoundTrip.antt =====
-- Unmarshal of MsgUpdateParams (x/tatcore/types/tx.pb.go) on encoded messages and on any slice.
use tatcoin.Base.{
  ℕ, ◌+◌, ◌^◌, ◌≤◌, ◌<◌, ◌≡◌, refl, sym, ap, ◌∙◌, List, [], ◌∷◌, ◌++◌, length, length-append, drop,
  arith, ◌==◌, Bool-cases, inl, inr,
}
use tatcoin.Proto.Result.{Result, ok, Ends, ◌>>=◌}
use tatcoin.Proto.Result.PbFile.{tx}
use tatcoin.Proto.Result.MessageName.{msg_update_params, msg_update_params_response}
use tatcoin.Proto.Result.FieldName.{authority_field, params_field}
use tatcoin.Proto.Varint.{varint, length-groups}
use tatcoin.Proto.Emit.Fields.{delimited}
use tatcoin.Proto.Emit.Overlay.{string_bytes}
use tatcoin.Proto.Wire.{IsSlice}
use tatcoin.Proto.Wire.Extent.{drop-part}
use tatcoin.Proto.Message.{string_field, message_field}
use tatcoin.Proto.Message.Ends.{
  FieldSteps, CaseSteps, string_field-Steps, message_field-Steps, unmarshal_into-Ends,
}
use tatcoin.Proto.Message.Reads.{
  Unmarshals, Unmarshals-end, Unmarshals-round, unmarshal_into-Unmarshals, string_round,
  message_round, delimited_inside,
}
use tatcoin.Proto.Params
use tatcoin.Proto.Params.{Params, no_params}
use tatcoin.Proto.Params.Codec
use tatcoin.Proto.Tx.{
  MsgUpdateParams, new_msg, set_authority, set_params, fields, marshal, unmarshal,
  MsgUpdateParamsResponse, response_unmarshal,
}
use tatcoin.Proto.Tx.Marshal.{encoding, marshal-encoding}
use mathlib.Core.List.{append-nil, append_assoc}

string_Steps : FieldSteps (string_field tx authority_field set_authority)
string_Steps = string_field-Steps tx authority_field set_authority

params_Steps :
    FieldSteps (
      message_field tx params_field (λ (m : MsgUpdateParams). m.params) set_params Params.unmarshal)
params_Steps =
    message_field-Steps tx params_field _ set_params Params.unmarshal Codec.unmarshal-Ends

fields-Steps : (n : ℕ) → CaseSteps (fields n)
fields-Steps n = elim (Bool-cases (n == 1)) [
  | inl one ↦ rw one string_Steps
  | inr not_one ↦ elim (Bool-cases (n == 2)) [
    | inl two ↦ rw (not_one, two) params_Steps
    | inr other ↦ rw (not_one, other) tt
  ]
]

-- Unmarshal of a MsgUpdateParams ends on every slice, in a message or an error.
pub unmarshal-Ends_msg : (bs : List ℕ) (m : MsgUpdateParams) → IsSlice bs → Ends (unmarshal bs m)
unfolding unmarshal
unmarshal-Ends_msg bs m small =
    unmarshal_into-Ends tx msg_update_params fields fields-Steps bs m small

pub response_unmarshal-Ends :
    (bs : List ℕ) (m : MsgUpdateParamsResponse) → IsSlice bs → Ends (response_unmarshal bs m)
unfolding response_unmarshal
response_unmarshal-Ends bs m small =
    unmarshal_into-Ends tx msg_update_params_response _ (λ n. tt) bs m small

-- A string read on top of another: one that is there replaces the one before.
abbrev pub later : List ℕ → List ℕ → List ℕ
later old [] = old
later old (x ∷ s) = x ∷ s

abbrev pub merge : MsgUpdateParams → MsgUpdateParams → MsgUpdateParams
merge old m = record { authority = later old.authority m.authority; params = no_params }

-- The fields of an encoded message, wherever it stands in the slice.
module _ (bs rest : List ℕ) (small : IsSlice bs) where
  read_params :
      (i : ℕ) (old : MsgUpdateParams) (r : Result MsgUpdateParams)
      → drop i bs ≡ delimited 0x12 [] ++ rest
      → Unmarshals tx msg_update_params fields bs
          (i + length (delimited 0x12 []))
          (set_params no_params old)
          r
      → Unmarshals tx msg_update_params fields bs i old r
  read_params i old r here next =
      Unmarshals-round tx msg_update_params fields bs i _ old (set_params no_params old) r
        (message_round tx msg_update_params fields bs [] rest i 0x12 2 old small (omega arith)
          (omega arith) (omega arith) (omega arith) here params_field (λ m. m.params) set_params
          Params.unmarshal no_params refl (Codec.unmarshal-nil old.params))
        (omega arith)
        (delimited_inside tx msg_update_params fields bs [] rest i 0x12 2 old small (omega arith)
          (omega arith) (omega arith) (omega arith) here)
        next

  read_authority :
      (s : List ℕ) (i : ℕ) (old : MsgUpdateParams) (r : Result MsgUpdateParams)
      → length s < 2 ^ 63
      → drop i bs ≡ string_bytes 0xa s ++ rest
      → Unmarshals tx msg_update_params fields bs
          (i + length (string_bytes 0xa s))
          (set_authority (later old.authority s) old)
          r
      → Unmarshals tx msg_update_params fields bs i old r
  read_authority [] i old r short here next = let e : i + 0 ≡ i = omega arith in rw e at next
  read_authority (x ∷ s) i old r short here next =
      Unmarshals-round tx msg_update_params fields bs i _ old (set_authority (x ∷ s) old) r
        (string_round tx msg_update_params fields bs (x ∷ s) rest i 0xa 1 old small short
          (omega arith) (omega arith) (omega arith) here authority_field set_authority refl)
        (omega arith)
        (delimited_inside tx msg_update_params fields bs (x ∷ s) rest i 0xa 1 old small short
          (omega arith) (omega arith) (omega arith) here)
        next

-- One encoded message in the slice is merged into what was read before it.
pub read_encoding :
    (bs rest : List ℕ) (i : ℕ) (old m : MsgUpdateParams) (r : Result MsgUpdateParams)
    → IsSlice bs
    → length m.authority < 2 ^ 63
    → drop i bs ≡ encoding m ++ rest
    → Unmarshals tx msg_update_params fields bs (i + length (encoding m)) (merge old m) r
    → Unmarshals tx msg_update_params fields bs i old r
unfolding encoding
read_encoding bs rest i old m r small short here next =
    let s : List ℕ = string_bytes 0xa m.authority in
    let d : List ℕ = delimited 0x12 [] in
    let at_string : drop i bs ≡ s ++ (d ++ rest) = here ∙ append_assoc s d rest in
    let at_params : drop (i + length s) bs ≡ d ++ rest = drop-part bs s (d ++ rest) i at_string in
    let index : i + length s + length d ≡ i + length (s ++ d) = omega (arith, length-append s d) in
    read_authority bs (d ++ rest) small m.authority i old r short at_string (
      read_params bs rest small (i + length s) (set_authority (later old.authority m.authority) old)
        r at_params (rw index next))

length-encoding : (m : MsgUpdateParams) → length (encoding m) ≤ length m.authority + 22
unfolding encoding
length-encoding m = go m.authority
  where
    go : (s : List ℕ) → length (string_bytes 0xa s ++ delimited 0x12 []) ≤ length s + 22
    go [] = omega (arith, length-groups 9 0, length-append (varint 0) [])
    go (x ∷ s) = omega (
      arith,
      length-groups 9 0,
      length-append (varint 0) [],
      length-groups 9 (length (x ∷ s)),
      length-append (varint (length (x ∷ s))) (x ∷ s),
      length-append (delimited 0xa (x ∷ s)) (delimited 0x12 []),
    )

-- Two encoded messages in one slice, whose authorities have fewer than 2 ^ 62 bytes together, are
-- read on top of any message as the later one merged into the earlier one merged into that: an
-- authority that is there replaces the one before.
pub unmarshal-append :
    (a b old : MsgUpdateParams)
    → length a.authority < 2 ^ 62
    → length b.authority < 2 ^ 62
    → length a.authority + length b.authority < 2 ^ 62
    → unmarshal (encoding a ++ encoding b) old ≡ ok (merge (merge old a) b)
unfolding unmarshal
unmarshal-append a b old la lb total =
    let bs : List ℕ = encoding a ++ encoding b in
    let len : length bs ≡ length (encoding a) + length (encoding b) =
      length-append (encoding a) (encoding b) in
    let small : IsSlice bs = omega (arith, len, length-encoding a, length-encoding b) in
    unmarshal_into-Unmarshals tx msg_update_params fields bs old _ (
      read_encoding bs (encoding b) 0 old a _ small (omega arith) refl (
        read_encoding bs [] (0 + length (encoding a)) (merge old a) b _ small (omega arith)
          (drop-part bs (encoding a) (encoding b) 0 refl ∙ sym (append-nil (encoding b)))
          (Unmarshals-end tx msg_update_params fields bs _ _ (omega (arith, len)))))

pub merge-new_msg : (m : MsgUpdateParams) → merge new_msg m ≡ m
merge-new_msg m = go m.authority m.params
  where
    go :
        (s : List ℕ) (p : Params)
        → merge new_msg (record { authority = s; params = p })
          ≡ record { authority = s; params = p }
    go [] no_params = refl
    go (x ∷ s) no_params = refl

-- Unmarshal, called on the zero value, gives back any MsgUpdateParams that was marshalled, if its
-- authority has fewer than 2 ^ 62 bytes.
pub unmarshal-marshal_msg :
    (m : MsgUpdateParams)
    → length m.authority < 2 ^ 62
    → (marshal m >>= λ bs. unmarshal bs new_msg) ≡ ok m
unfolding unmarshal
unmarshal-marshal_msg m short =
    let small : IsSlice (encoding m) = omega (arith, length-encoding m) in
    rw (marshal-encoding m (omega arith)) (
      unmarshal_into-Unmarshals tx msg_update_params fields (encoding m) new_msg _ (
        read_encoding (encoding m) [] 0 new_msg m _ small (omega arith)
          (sym (append-nil (encoding m)))
          (Unmarshals-end tx msg_update_params fields (encoding m) _ _ (omega arith)))
      ∙ ap ok (merge-new_msg m))
