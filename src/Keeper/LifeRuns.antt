-- ===== src/Keeper/LifeRuns.antt =====
-- The theorems on the life of a chain at a concrete chain.
use Prim.Native.String.{String}
use tatcoin.Base.{ℕ, ◌≡◌, refl, Option, none, some, List, [], ◌∷◌, arith}
use tatcoin.Keeper.Sdk.{ok}
use tatcoin.Keeper.Server.{built, query_params, update_params}
use tatcoin.Keeper.AppModule.{
  app_validate_genesis, app_init_genesis, app_export_genesis, begin_block, end_block,
}
use tatcoin.Keeper.Services.{
  Method, update_method, ServiceDesc, register_services, method_or, route-register_services,
}
use tatcoin.Keeper.Handler.{
  Interceptor, of_server, UpdateAnswer, QueryAnswer, msg_update_params_handler,
  query_params_handler,
}
use tatcoin.Keeper.Chain.{
  fresh, committed, in_block, Step, Steps, init_chain, begin, deliver, end, here, then_step,
}
use tatcoin.Keeper.Life.{Steps-app_export_genesis}
use tatcoin.Keeper.Reach.{delivered, Steps-query_params}
use tatcoin.Keeper.Stored.{StoreError, undecodable, stored_item, stored_item-IsItem}
use tatcoin.Keeper.Runs.{
  plain_codec-IsCodec, empty_store, gov_keeper, gov_call, IsItem-law, plain_json, plain_json-IsJson,
  started_store, started,
}
use tatcoin.Proto.Params.{Params, no_params}
use tatcoin.Proto.Tx
use tatcoin.Proto.Tx.{MsgUpdateParams, new_msg, response}
use tatcoin.Keeper.Requests.{decoded}
use tatcoin.Proto.Query.{QueryParamsRequest, request}
use tatcoin.Proto.Genesis.{GenesisState}

takes : (s : Option (List ℕ)) (p : Params) → (stored_item.set s p).1 ≡ none
takes s p = (stored_item-IsItem s p).0

expresses : (gs : GenesisState) → (bz : List ℕ) × (plain_json.marshal_json gs ≡ ok bz)
expresses gs = (123 ∷ 125 ∷ [], refl)

-- What a message of the authority leaves.
abbrev next_store : Option (List ℕ)
next_store = (update_params gov_keeper started_store gov_call).1

-- The genesis, and a block with one message of the authority.
one_block :
    Steps plain_json gov_keeper undecodable
      (record { phase = fresh; store = empty_store })
      (record { phase = committed; store = next_store })
unfolding begin_block end_block
one_block =
    let (bytes, served) =
      delivered gov_keeper plain_json undecodable started_store gov_call refl
        (takes started_store no_params) (omega arith) in
    then_step
      (then_step (then_step (then_step here (init_chain (123 ∷ 125 ∷ []) started)) (begin refl))
        (deliver bytes served))
      (end refl)

Steps-app_export_genesis_example :
    (bz : List ℕ) × (restarted : Option (List ℕ)) × (app_export_genesis plain_json gov_keeper
        next_store
      ≡ built bz)
    × (app_validate_genesis plain_json bz ≡ none)
    × (app_init_genesis plain_json gov_keeper empty_store bz ≡ built restarted)
    × ((req : Option QueryParamsRequest)
        → query_params gov_keeper restarted req ≡ query_params gov_keeper next_store req)
    × (app_export_genesis plain_json gov_keeper restarted ≡ built bz)
Steps-app_export_genesis_example =
    Steps-app_export_genesis gov_keeper plain_json undecodable empty_store empty_store
      (record { phase = committed; store = next_store }) IsItem-law plain_json-IsJson expresses
      (takes empty_store) one_block (λ e. cc)

Steps-query_params_example :
    (s : Option (List ℕ)) × (bytes : List ℕ) × Steps plain_json gov_keeper undecodable
      (record { phase = fresh; store = empty_store })
      (record { phase = in_block; store = s })
    × (msg_update_params_handler gov_keeper s
          (decoded undecodable (Tx.unmarshal bytes new_msg))
          none
        ≡ (ok response, (stored_item.set s no_params).0))
    × Step plain_json gov_keeper undecodable
        (record { phase = in_block; store = s })
        (record { phase = in_block; store = (stored_item.set s no_params).0 })
    × (stored_item.get (stored_item.set s no_params).0 ≡ ok no_params)
    × (query_params gov_keeper (stored_item.set s no_params).0 (some request)
        ≡ ok (record { params = no_params }))
Steps-query_params_example =
    Steps-query_params gov_keeper plain_json undecodable
      (record { phase = fresh; store = empty_store }) no_params (116 ∷ 7 ∷ []) request
      plain_codec-IsCodec IsItem-law plain_json-IsJson expresses takes refl (omega arith)

-- A server that is the table of its routes.
abbrev Routes : Type 0
Routes = String → Option (Method StoreError (Option (List ℕ)))

abbrev register_routes : ServiceDesc StoreError (Option (List ℕ)) → Routes → Routes
register_routes d r path = method_or d.service_name d.methods path (r path)

abbrev no_routes : Routes
no_routes path = none

route-register_services_example :
    (register_services register_routes gov_keeper no_routes "/tatcore.tatcore.v1.Msg/UpdateParams"
      ≡ some (update_method gov_keeper (msg_update_params_handler gov_keeper)))
    × ((s : Option (List ℕ)) (req : QueryParamsRequest)
          (i : Interceptor QueryParamsRequest (QueryAnswer gov_keeper s))
        → query_params_handler gov_keeper s (ok req) (some i)
          ≡ i "/tatcore.tatcore.v1.Query/Params" req
              (λ x. of_server (query_params gov_keeper s (some x))))
    × ((s : Option (List ℕ)) (req : MsgUpdateParams)
          (i : Interceptor MsgUpdateParams (UpdateAnswer gov_keeper s))
        → msg_update_params_handler gov_keeper s (ok req) (some i)
          ≡ i "/tatcore.tatcore.v1.Msg/UpdateParams" req
              (λ x. (of_server (update_params gov_keeper s x).0, (update_params gov_keeper s x).1)))
route-register_services_example =
    route-register_services register_routes (λ r path. r path) gov_keeper no_routes
      "/tatcore.tatcore.v1.Msg/UpdateParams" (λ d r path. refl)
