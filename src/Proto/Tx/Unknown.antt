-- ===== src/Proto/Tx/Unknown.antt =====
-- Unmarshal of MsgUpdateParams (x/tatcore/types/tx.pb.go) on messages of a later version, which have
-- fields that it does not know.
use tatcoin.Base.{
  ℕ, ◌+◌, ◌^◌, ◌≤◌, ◌<◌, ◌≡◌, refl, sym, ◌∙◌, none, false, List, [], ◌++◌, length, length-append,
  drop, arith, ◌==◌,
}
use tatcoin.Proto.Result.{ok}
use tatcoin.Proto.Result.PbFile.{tx}
use tatcoin.Proto.Result.MessageName.{msg_update_params}
use tatcoin.Proto.Wire.Extent.{drop-part}
use tatcoin.Proto.Wire.Unknown.{Value}
use tatcoin.Proto.Message.Reads.{Unmarshals-end, unmarshal_into-Unmarshals}
use tatcoin.Proto.Message.Unknown.{fields_bytes, AreUnknown, read_unknowns}
use tatcoin.Proto.Tx.{MsgUpdateParams, new_msg, fields, unmarshal}
use tatcoin.Proto.Tx.Marshal.{encoding}
use tatcoin.Proto.Tx.RoundTrip.{read_encoding, merge-new_msg}
use mathlib.Core.List.{append-nil}

no_field : (n : ℕ) → 3 ≤ n → fields n ≡ none
no_field n h =
    let one : (n == 1) ≡ false = ground arith in
    let two : (n == 2) ≡ false = ground arith in rw (one, two) refl

-- Any number of fields with numbers from 3 on and below 2 ^ 29, each a 64-bit number, eight bytes, four
-- bytes or a length and as many bytes, before and behind an encoded MsgUpdateParams change nothing:
-- Unmarshal, called on the zero value, gives the message, if the slice, the authority and the bytes behind
-- each length are fewer than 2 ^ 63.
pub unmarshal-fields_bytes :
    (m : MsgUpdateParams) (before behind : List (ℕ × Value))
    → AreUnknown 3 before
    → AreUnknown 3 behind
    → length (fields_bytes before ++ (encoding m ++ fields_bytes behind)) < 2 ^ 63
    → length m.authority < 2 ^ 63
    → unmarshal (fields_bytes before ++ (encoding m ++ fields_bytes behind)) new_msg ≡ ok m
unfolding unmarshal
unmarshal-fields_bytes m before behind earlier later small short =
    let tail : List ℕ = encoding m ++ fields_bytes behind in
    let bs : List ℕ = fields_bytes before ++ tail in
    let i : ℕ = 0 + length (fields_bytes before) in
    let j : ℕ = i + length (encoding m) in
    let at_message : drop i bs ≡ tail = drop-part bs (fields_bytes before) tail 0 refl in
    let at_behind : drop j bs ≡ fields_bytes behind =
      drop-part bs (encoding m) (fields_bytes behind) i at_message in
    let total : j + length (fields_bytes behind) ≡ length bs = omega (
      arith,
      length-append (fields_bytes before) tail,
      length-append (encoding m) (fields_bytes behind),
    ) in
    unmarshal_into-Unmarshals tx msg_update_params fields bs new_msg (ok m) (
      read_unknowns tx msg_update_params fields 3 (omega arith) no_field bs tail small before 0
        new_msg (ok m) earlier refl
        (read_encoding bs (fields_bytes behind) i new_msg m (ok m) small short at_message (
          rw (merge-new_msg m) (
            read_unknowns tx msg_update_params fields 3 (omega arith) no_field bs [] small behind j
              m (ok m) later (at_behind ∙ sym (append-nil (fields_bytes behind)))
              (Unmarshals-end tx msg_update_params fields bs _ m total)))))
