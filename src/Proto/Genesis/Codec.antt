-- ===== src/Proto/Genesis/Codec.antt =====
-- The codec of GenesisState (x/tatcore/types/genesis.pb.go).
use tatcoin.Base.{ℕ, ◌≡◌, refl, ◌∙◌, ap, List, ◌==◌, Bool-cases, inl, inr}
use tatcoin.Proto.Result.{ok, Ends, ◌>>=◌}
use tatcoin.Proto.Result.PbFile.{genesis}
use tatcoin.Proto.Result.MessageName.{genesis_state}
use tatcoin.Proto.Wire.{IsSlice}
use tatcoin.Proto.Message.Ends.{CaseSteps, unmarshal_into-Ends}
use tatcoin.Proto.Message.Marshal.{marshal_fresh-overlay}
use tatcoin.Proto.Params.{Params, no_params}
use tatcoin.Proto.Params.Embedded.{
  embedded, size-embedded, put-embedded, unmarshal-embedded, params_field-Steps,
}
use tatcoin.Proto.Genesis.{GenesisState, fields, size, marshal_to_sized_buffer, marshal, unmarshal}

fields-Steps : (n : ℕ) → CaseSteps (fields n)
fields-Steps n = elim (Bool-cases (n == 1)) [
  | inl one ↦ rw one (params_field-Steps genesis (λ m. m.params) (λ p m. record m { params = p }))
  | inr other ↦ rw other tt
]

-- Unmarshal of a GenesisState ends on every slice, in a message or an error.
pub unmarshal-Ends_genesis : (bs : List ℕ) (m : GenesisState) → IsSlice bs → Ends (unmarshal bs m)
unfolding unmarshal
unmarshal-Ends_genesis bs m small =
    unmarshal_into-Ends genesis genesis_state fields fields-Steps bs m small

-- Marshal of a GenesisState gives the bytes of its parameters' field.
pub marshal-embedded_genesis : (m : GenesisState) → marshal m ≡ ok embedded
unfolding marshal size marshal_to_sized_buffer
marshal-embedded_genesis m =
    marshal_fresh-overlay embedded _ (size m) (size-embedded m.params) (put-embedded m.params)

only : (m : GenesisState) → record m { params = no_params } ≡ m
only m = go m.params
  where
    go : (p : Params) → record m { params = no_params } ≡ record m { params = p }
    go no_params = refl

-- Unmarshal gives back the GenesisState that was marshalled, on top of any other.
pub unmarshal-marshal_genesis :
    (m old : GenesisState) → (marshal m >>= λ bs. unmarshal bs old) ≡ ok m
unfolding unmarshal
unmarshal-marshal_genesis m old = rw (marshal-embedded_genesis m) (
    unmarshal-embedded genesis genesis_state fields (λ m. m.params) (λ p m. record m { params = p })
      refl old
    ∙ ap ok (only m))
