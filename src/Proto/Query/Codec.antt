-- ===== src/Proto/Query/Codec.antt =====
-- The codec of QueryParamsResponse (x/tatcore/types/query.pb.go).
use tatcoin.Base.{ℕ, ◌≡◌, refl, ◌∙◌, ap, List, [], ◌==◌, Bool-cases, inl, inr}
use tatcoin.Proto.Result.{ok, Ends, ◌>>=◌}
use tatcoin.Proto.Result.PbFile.{query}
use tatcoin.Proto.Result.MessageName.{query_params_request, query_params_response}
use tatcoin.Proto.Wire.{IsSlice}
use tatcoin.Proto.Message.Ends.{CaseSteps, unmarshal_into-Ends}
use tatcoin.Proto.Message.Marshal.{marshal_fresh-overlay, marshal_fresh-zero}
use tatcoin.Proto.Message.Reads.{unmarshal_into-Unmarshals, Unmarshals-end}
use tatcoin.Proto.Params.{Params, no_params}
use tatcoin.Proto.Params.Embedded.{
  embedded, size-embedded, put-embedded, unmarshal-embedded, params_field-Steps,
}
use tatcoin.Proto.Query.{
  QueryParamsResponse, fields, size, marshal_to_sized_buffer, marshal, unmarshal,
  QueryParamsRequest, request, request_size, request_marshal_to_sized_buffer, request_marshal,
  request_unmarshal,
}

fields-Steps : (n : ℕ) → CaseSteps (fields n)
fields-Steps n = elim (Bool-cases (n == 1)) [
  | inl one ↦ rw one (params_field-Steps query (λ m. m.params) (λ p m. record m { params = p }))
  | inr other ↦ rw other tt
]

-- Unmarshal of a QueryParamsResponse ends on every slice, in a message or an error.
pub unmarshal-Ends_query :
    (bs : List ℕ) (m : QueryParamsResponse) → IsSlice bs → Ends (unmarshal bs m)
unfolding unmarshal
unmarshal-Ends_query bs m small =
    unmarshal_into-Ends query query_params_response fields fields-Steps bs m small

pub request_unmarshal-Ends :
    (bs : List ℕ) (m : QueryParamsRequest) → IsSlice bs → Ends (request_unmarshal bs m)
unfolding request_unmarshal
request_unmarshal-Ends bs m small =
    unmarshal_into-Ends query query_params_request _ (λ n. tt) bs m small

-- Marshal of a QueryParamsResponse gives the bytes of its parameters' field.
pub marshal-embedded_query : (m : QueryParamsResponse) → marshal m ≡ ok embedded
unfolding marshal size marshal_to_sized_buffer
marshal-embedded_query m =
    marshal_fresh-overlay embedded _ (size m) (size-embedded m.params) (put-embedded m.params)

only : (m : QueryParamsResponse) → record m { params = no_params } ≡ m
only m = go m.params
  where
    go : (p : Params) → record m { params = no_params } ≡ record m { params = p }
    go no_params = refl

-- Unmarshal gives back the QueryParamsResponse that was marshalled, on top of any other.
pub unmarshal-marshal_query :
    (m old : QueryParamsResponse) → (marshal m >>= λ bs. unmarshal bs old) ≡ ok m
unfolding unmarshal
unmarshal-marshal_query m old = rw (marshal-embedded_query m) (
    unmarshal-embedded query query_params_response fields (λ m. m.params)
      (λ p m. record m { params = p }) refl old
    ∙ ap ok (only m))

-- The request has no bytes, and no bytes leave a request as it is.
pub request_marshal-request : request_marshal request ≡ ok []
unfolding request_marshal request_size request_marshal_to_sized_buffer
request_marshal-request = marshal_fresh-zero _ refl

pub request_unmarshal-empty : (m : QueryParamsRequest) → request_unmarshal [] m ≡ ok m
unfolding request_unmarshal
request_unmarshal-empty m =
    unmarshal_into-Unmarshals query query_params_request _ [] m (ok m)
      (Unmarshals-end query query_params_request _ [] 0 m refl)
