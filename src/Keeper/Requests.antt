-- ===== src/Keeper/Requests.antt =====
-- A request on the wire: decoding, the registered handler, the server, and what a later query reads.
use tatcoin.Base.{◌^◌, ◌<◌, ◌≡◌, refl, none, length, true, false, Bool-cases, inl, inr}
use tatcoin.Keeper.Sdk.{Outcome, ok, err, IsItem}
use tatcoin.Keeper.Server.{Keeper, internal_error, query_params}
use tatcoin.Keeper.Handler.{HandlerError, served, msg_update_params_handler, query_params_handler}
use tatcoin.Keeper.Updates.{
  Authorized, Outcome-cases, update_params-ok_iff, update_params-written, update_params-get,
}
use tatcoin.Proto.Result.{Result, ◌>>=◌}
use tatcoin.Proto.Tx
use tatcoin.Proto.Tx.{MsgUpdateParams, new_msg, response}
use tatcoin.Proto.Tx.RoundTrip.{unmarshal-marshal_msg}
use tatcoin.Proto.Params.{Params, no_params}
use tatcoin.Proto.Query.{QueryParamsRequest, QueryParamsResponse}

-- gRPC's `dec` on the bytes of a request: it unmarshals them into a new message.
abbrev pub decoded : {E : Type 0} → E → Result MsgUpdateParams → Outcome E MsgUpdateParams
decoded fault (Result.ok m) = ok m
decoded fault _ = err fault

-- What a query answers, by what a read of the store gives: the parameters that are there, the zero
-- value where they are not found, and an internal error where the read fails otherwise.
pub data Queried {E Store : Type 0} (k : Keeper E Store) (s : Store)
    : Outcome (HandlerError E) QueryParamsResponse → Type 0 where
  found : {p : Params} → k.params.get s ≡ ok p → Queried k s (ok (record { params = p }))
  absent :
      {e : E}
      → k.params.get s ≡ err e
      → k.params.is_not_found e ≡ true
      → Queried k s (ok (record { params = no_params }))
  failed :
      {e : E}
      → k.params.get s ≡ err e
      → k.params.is_not_found e ≡ false
      → Queried k s (err (served internal_error))

query_params_handler-Queried :
    {E Store : Type 0} (k : Keeper E Store) (s : Store) (req : QueryParamsRequest)
    → Queried k s (query_params_handler k s (ok req) none)
unfolding query_params_handler query_params
query_params_handler-Queried k s req = elim (Outcome-cases (k.params.get s)) [
  | inl (p, got) ↦ rw (got, query_params) (found got)
  | inr (e, missing) ↦ elim (Bool-cases (k.params.is_not_found e)) [
    | inl none_there ↦ rw (missing, query_params, none_there) (absent missing none_there)
    | inr broken ↦ rw (missing, query_params, broken) (failed missing broken)
  ]
]

module _ {E Store : Type 0} (k : Keeper E Store) (s : Store) (fault : E) where
  -- A message of the authority, with fewer than 2 ^ 62 bytes of text, that is marshalled,
  -- unmarshalled and given to the registered handler without an interceptor succeeds, if the write
  -- has no error, and leaves the store that the write of its parameters leaves; the registered query
  -- handler then answers with them, and over any store with what a read of that store gives: the
  -- parameters, the zero value where they are not found, or an internal error; the item gives back
  -- what was written.
  pub query_params_handler-msg_update_params_handler :
      (m : MsgUpdateParams) (req : QueryParamsRequest)
      → IsItem k.params
      → length m.authority < 2 ^ 62
      → Authorized k s m
      → (k.params.set s m.params).1 ≡ none
      → let bytes = Tx.marshal m >>= λ bs. Tx.unmarshal bs new_msg in
        let (answer, s') = msg_update_params_handler k s (decoded fault bytes) none in
        (answer ≡ ok response)
        × (s' ≡ (k.params.set s m.params).0)
        × (query_params_handler k s' (ok req) none ≡ ok (record { params = m.params }))
        × ((t : Store) → Queried k t (query_params_handler k t (ok req) none))
  unfolding msg_update_params_handler query_params_handler query_params
  query_params_handler-msg_update_params_handler m req item short a fine =
      let accepted = (update_params-ok_iff k s m).1 (a, fine) in
      rw
        (
          unmarshal-marshal_msg m short,
          accepted,
          query_params,
          update_params-get k s m item accepted,
        )
        (refl, update_params-written k s m a fine, refl, λ t. query_params_handler-Queried k t req)
