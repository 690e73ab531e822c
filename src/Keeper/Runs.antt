-- ===== src/Keeper/Runs.antt =====
-- The theorems of the module at a concrete codec, store and messages.
use tatcoin.Base.{ℕ, ◌≡◌, ◌↔◌, refl, Option, none, List, [], ◌∷◌, ◌++◌, arith}
use tatcoin.Keeper.Sdk.{Outcome, ok, err, AddressCodec, JsonCodec, IsCodec, IsItem, IsJson}
use tatcoin.Keeper.Server.{Keeper, built, update_params, init_genesis}
use tatcoin.Keeper.AppModule.{app_init_genesis}
use tatcoin.Keeper.Gateway.{Gateway, Connection, coded}
use tatcoin.Keeper.Proxy.{answered}
use tatcoin.Keeper.Handler.{
  HandlerError, undecoded, msg_update_params_handler, query_params_handler,
}
use tatcoin.Keeper.Requests.{decoded, Queried, query_params_handler-msg_update_params_handler}
use tatcoin.Keeper.Updates.{Authorized, Answer, update_params-Answer, update_params-ok_iff}
use tatcoin.Keeper.History.{deliver, deliver-get}
use tatcoin.Keeper.Stored.{StoreError, undecodable, stored_item, stored_item-IsItem}
use tatcoin.Proto.Result.{◌>>=◌}
use tatcoin.Proto.Params.{Params, no_params}
use tatcoin.Proto.Tx
use tatcoin.Proto.Tx.{MsgUpdateParams, new_msg, response}
use tatcoin.Proto.Query.{request, request_unmarshal}
use tatcoin.Proto.Genesis.{GenesisState}

-- Addresses whose text is their bytes behind a letter.
abbrev read_text : List ℕ → Outcome StoreError (List ℕ)
read_text [] = err undecodable
read_text (x ∷ xs) = ok xs

abbrev pub plain_codec : AddressCodec StoreError
plain_codec = record { string_to_bytes = read_text; bytes_to_string = λ bz. ok (116 ∷ bz) }

pub plain_codec-IsCodec : IsCodec plain_codec
plain_codec-IsCodec bz s e = cc

abbrev pub empty_store : Option (List ℕ)
empty_store = none

abbrev pub gov_keeper : Keeper StoreError (Option (List ℕ))
gov_keeper = record { address_codec = plain_codec; authority = 7 ∷ []; params = stored_item }

abbrev pub gov_call : MsgUpdateParams
gov_call = record { authority = 116 ∷ 7 ∷ []; params = no_params }

abbrev other_call : MsgUpdateParams
other_call = record { authority = 116 ∷ 8 ∷ []; params = no_params }

pub IsItem-law : IsItem stored_item
IsItem-law s p fine = (stored_item-IsItem s p).1

-- JSON with one state.
abbrev read_json : List ℕ → Outcome StoreError GenesisState
read_json [] = err undecodable
read_json (x ∷ xs) = ok (record { params = no_params })

abbrev pub plain_json : JsonCodec StoreError
plain_json = record { marshal_json = λ gs. ok (123 ∷ 125 ∷ []); unmarshal_json = read_json }

pub plain_json-IsJson : IsJson plain_json
plain_json-IsJson gs bz e =
    let bytes : ◌≡◌ {A = List ℕ} (123 ∷ 125 ∷ []) bz = cc in rw (← bytes) (only gs.params)
  where
    only :
        (p : Params)
        → ◌≡◌ {A = Outcome StoreError GenesisState}
            (ok (record { params = no_params }))
            (ok (record { params = p }))
    only no_params = refl

not_authority : ¬ (Authorized gov_keeper empty_store other_call)
not_authority e = cc

deliver-get_example :
    let s = deliver gov_keeper empty_store ((other_call ∷ []) ++ (gov_call ∷ (other_call ∷ []))) in
    (s ≡ (stored_item.set (deliver gov_keeper empty_store (other_call ∷ [])) no_params).0)
    × (gov_keeper.params.get s ≡ ok no_params)
deliver-get_example =
    deliver-get gov_keeper empty_store (other_call ∷ []) (other_call ∷ []) gov_call IsItem-law refl
      (stored_item-IsItem _ no_params).0 (still_not_authority, tt)
  where
    still_not_authority : ¬ (
        Authorized gov_keeper
          (update_params gov_keeper (deliver gov_keeper empty_store (other_call ∷ [])) gov_call).1
          other_call)
    still_not_authority e = cc

update_params-Answer_example :
    Answer gov_keeper empty_store other_call (update_params gov_keeper empty_store other_call)
update_params-Answer_example = update_params-Answer gov_keeper empty_store other_call

update_params-ok_iff_example : ((update_params gov_keeper empty_store gov_call).0 ≡ ok response) ↔ (
    Authorized gov_keeper empty_store gov_call × ((stored_item.set empty_store no_params).1 ≡ none))
update_params-ok_iff_example = update_params-ok_iff gov_keeper empty_store gov_call

query_params_handler-msg_update_params_handler_example :
    let bytes = Tx.marshal gov_call >>= λ bs. Tx.unmarshal bs new_msg in
    let (answer, s') =
      msg_update_params_handler gov_keeper empty_store (decoded undecodable bytes) none in
    (answer ≡ ok response)
    × (s' ≡ (stored_item.set empty_store no_params).0)
    × (query_params_handler gov_keeper s' (ok request) none ≡ ok (record { params = no_params }))
    × ((t : Option (List ℕ))
        → Queried gov_keeper t (query_params_handler gov_keeper t (ok request) none))
query_params_handler-msg_update_params_handler_example =
    query_params_handler-msg_update_params_handler gov_keeper empty_store undecodable gov_call
      request IsItem-law (omega arith) refl (stored_item-IsItem _ no_params).0

-- What the default genesis leaves in the store.
abbrev pub started_store : Option (List ℕ)
started_store = (stored_item.set empty_store no_params).0

pub started :
    app_init_genesis plain_json gov_keeper empty_store (123 ∷ 125 ∷ []) ≡ built started_store
unfolding app_init_genesis init_genesis
started = rw ((stored_item-IsItem empty_store no_params).0, app_init_genesis) refl

-- A context is its outgoing and its incoming metadata; a call carries the first over.
abbrev carried_over : List ℕ × List ℕ → List ℕ × List ℕ
carried_over (outgoing, incoming) = ([], outgoing)

-- A gateway without metadata of its own, and a connection to the server.
abbrev plain_gateway : Gateway (HandlerError StoreError) ℕ (List ℕ × List ℕ) ℕ (List ℕ)
plain_gateway = record {
  marshaler_for_request = λ req. (0, 1);
  annotate_incoming_context = λ req. ok ([], req ∷ []);
  annotate_context = λ req. ok (req ∷ [], []);
  no_metadata = [];
  join = λ a b. a ++ b;
}

abbrev stream_of : List ℕ × List ℕ → List ℕ
stream_of (outgoing, incoming) = incoming

abbrev server_connection : Connection (HandlerError StoreError) (List ℕ × List ℕ) (List ℕ)
server_connection ctx method bytes = (
  answered gov_keeper empty_store (undecoded undecodable) undecodable stream_of carried_over (
      query_params_handler gov_keeper empty_store
        (coded undecodable (request_unmarshal bytes request)) none),
  stream_of (carried_over ctx),
)
