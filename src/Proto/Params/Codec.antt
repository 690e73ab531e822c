-- ===== src/Proto/Params/Codec.antt =====
-- The codec of Params, a message with no field.
use tatcoin.Base.{ℕ, ◌-◌, ◌≡◌, refl, ap, List, [], length, take-append-drop, arith}
use tatcoin.Proto.Result.{ok, Ends}
use tatcoin.Proto.Result.PbFile.{params_file}
use tatcoin.Proto.Result.MessageName.{params_message}
use tatcoin.Proto.Wire.{IsSlice}
use tatcoin.Proto.Emit.Overlay.{overlay}
use tatcoin.Proto.Message.Marshal.{marshal_fresh-overlay}
use tatcoin.Proto.Message.Ends.{unmarshal_into-Ends}
use tatcoin.Proto.Message.Reads.{Unmarshals-end, unmarshal_into-Unmarshals}
use tatcoin.Proto.Params.{
  Params, no_params, fields, unmarshal, marshal, size, marshal_to_sized_buffer,
}

pub unmarshal-Ends : (bs : List ℕ) (p : Params) → IsSlice bs → Ends (unmarshal bs p)
unfolding unmarshal fields
unmarshal-Ends bs p small = unmarshal_into-Ends params_file params_message _ (λ n. tt) bs p small

-- No bytes are the empty parameters.
pub unmarshal-nil : (p : Params) → unmarshal [] p ≡ ok no_params
unfolding unmarshal
unmarshal-nil no_params =
    unmarshal_into-Unmarshals _ _ _ [] no_params (ok no_params)
      (Unmarshals-end _ _ _ [] 0 no_params (omega arith))

-- The empty parameters are no bytes.
pub marshal-nil : (p : Params) → marshal p ≡ ok []
unfolding marshal size marshal_to_sized_buffer
marshal-nil no_params =
    marshal_fresh-overlay [] _ 0 refl (λ buf room. ap (λ (r : List ℕ × ℕ). ok r) (same buf))
  where
    same :
        (buf : List ℕ)
        → ◌≡◌ {A = List ℕ × ℕ} (buf, length buf - length buf) (overlay buf [] (length buf), 0)
    same buf =
        let all : length buf - 0 ≡ length buf = omega arith in
        let rest : length buf - length buf ≡ 0 = omega arith in
        rw (all, rest, take-append-drop (length buf) buf)
