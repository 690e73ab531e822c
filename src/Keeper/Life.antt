-- ===== src/Keeper/Life.antt =====
-- What holds of the module in every state of a chain that its steps reach (x/tatcore/module/module.go).
use tatcoin.Base.{◌≡◌, ◌≢◌, refl, ap, ℕ, Option, none, some, List}
use tatcoin.Keeper.Sdk.{Outcome, ok, err, JsonCodec, IsItem, IsJson}
use tatcoin.Keeper.Server.{
  Error, Keeper, Built, built, panics, update_params, query_params, init_genesis, export_genesis,
  validate_genesis,
}
use tatcoin.Keeper.AppModule.{app_validate_genesis, app_init_genesis, app_export_genesis}
use tatcoin.Keeper.Handler.{of_server, msg_update_params_handler}
use tatcoin.Keeper.Requests.{decoded}
use tatcoin.Keeper.Updates.{update_params-get}
use tatcoin.Keeper.Chain.{
  fresh, Chain, Step, init_chain, begin, deliver, reject, end, Steps, here, then_step,
}
use tatcoin.Proto.Params.{Params}
use tatcoin.Proto.Genesis.{GenesisState}
use tatcoin.Proto.Query.{QueryParamsRequest}
use tatcoin.Proto.Tx
use tatcoin.Proto.Tx.{MsgUpdateParams, MsgUpdateParamsResponse, new_msg, response}

of_server-ok : {E A : Type 0} (r : Outcome (Error E) A) (a : A) → of_server r ≡ ok a → r ≡ ok a
of_server-ok (ok x) a e = let same : x ≡ a = cc in ap ok same
of_server-ok (err x) a e = cc

module _ {E Store : Type 0} (k : Keeper E Store) where
  -- The store holds parameters.
  abbrev pub Holds : Store → Type 0
  Holds s = (p : Params) × (k.params.get s ≡ ok p)

  -- A store that takes whatever parameters are written.
  abbrev pub Takes : Store → Type 0
  Takes s = (p : Params) → (k.params.set s p).1 ≡ none

  delivered-Holds :
      (s s' : Store) (d : Outcome E MsgUpdateParams)
      → IsItem k.params
      → msg_update_params_handler k s d none ≡ (ok response, s')
      → Holds s'
  unfolding msg_update_params_handler
  delivered-Holds s s' (err e) item h = cc
  delivered-Holds s s' (ok m) item h =
      let answered : (update_params k s m).0 ≡ ok response =
        of_server-ok (update_params k s m).0 response (ap (λ r. r.0) h) in
      let after : (update_params k s m).1 ≡ s' = ap (λ r. r.1) h in
      (m.params, rw (← after) (update_params-get k s m item answered))

  module _ (cdc : JsonCodec E) where
    -- JSON expresses every genesis state.
    abbrev pub Expresses : Type 0
    Expresses = (gs : GenesisState) → (bz : List ℕ) × (cdc.marshal_json gs ≡ ok bz)

    started-Holds :
        (s s' : Store) (bz : List ℕ)
        → IsItem k.params
        → app_init_genesis cdc k s bz ≡ built s'
        → Holds s'
    unfolding app_init_genesis init_genesis
    started-Holds s s' bz item h = go (cdc.unmarshal_json bz) h
      where
        store_of : Built Store → Store
        store_of (built x) = x
        store_of panics = s

        no_store : panics ≡ built s' → ⊥
        no_store p = cc

        stored :
            (p : Params) (w : Store × Option E)
            → (w.1 ≡ none → k.params.get w.0 ≡ ok p)
            → elim w.1 as (λ x. Built Store) [ some e ↦ panics | none ↦ built w.0 ] ≡ built s'
            → Holds s'
        stored p (x, none) law e = let same : x ≡ s' = ap store_of e in (p, rw (← same) (law refl))
        stored p (x, some b) law e = absurd (no_store e)

        go :
            (r : Outcome E GenesisState)
            → elim r as (λ x. Built Store) [
              | err e ↦ panics
              | ok gs ↦ elim (k.params.set s gs.params).1 [
                | some e ↦ panics
                | none ↦ built (k.params.set s gs.params).0
              ]
            ]
              ≡ built s'
            → Holds s'
        go (err e) h = absurd (no_store h)
        go (ok gs) h = stored gs.params (k.params.set s gs.params) (item s gs.params) h

    module _ (fault : E) where
      -- What the store holds by the phase.
      abbrev pub IsStarted : Chain Store → Type 0
      IsStarted c = c.phase ≢ fresh → Holds c.store

      Step-IsStarted :
          {c c' : Chain Store}
          → IsItem k.params
          → Step cdc k fault c c'
          → IsStarted c
          → IsStarted c'
      Step-IsStarted item (init_chain {s = s} {s' = s'} bz e) h other = started-Holds s s' bz item e
      Step-IsStarted item (begin e) h other = h (λ e. cc)
      Step-IsStarted item (deliver {s = s} {s' = s'} bytes e) h other =
          delivered-Holds s s' (decoded fault (Tx.unmarshal bytes new_msg)) item e
      Step-IsStarted item (reject bytes e) h other = h other
      Step-IsStarted item (end e) h other = h (λ e. cc)

      Steps-IsStarted :
          {c c' : Chain Store}
          → IsItem k.params
          → Steps cdc k fault c c'
          → IsStarted c
          → IsStarted c'
      Steps-IsStarted item here h = h
      Steps-IsStarted item (then_step steps step) h =
          Step-IsStarted item step (Steps-IsStarted item steps h)

      -- From a chain before its genesis, over any store, whatever genesis, blocks and messages follow: once
      -- the genesis is done, the export does not panic, its JSON is a valid genesis, and any other store
      -- that takes the writes is initialised from it, answers queries as the store of the chain does, and
      -- exports the same JSON; JSON expresses every genesis state and reads back what it wrote, and the item
      -- gives back what was written.
      pub Steps-app_export_genesis :
          (s other : Store) (c : Chain Store)
          → IsItem k.params
          → IsJson cdc
          → Expresses
          → Takes other
          → Steps cdc k fault (record { phase = fresh; store = s }) c
          → c.phase ≢ fresh
          → (bz : List ℕ) × (restarted : Store) × (app_export_genesis cdc k c.store ≡ built bz)
            × (app_validate_genesis cdc bz ≡ none)
            × (app_init_genesis cdc k other bz ≡ built restarted)
            × ((req : Option QueryParamsRequest)
                → query_params k restarted req ≡ query_params k c.store req)
            × (app_export_genesis cdc k restarted ≡ built bz)
      unfolding app_export_genesis app_validate_genesis app_init_genesis init_genesis export_genesis
          query_params validate_genesis
      Steps-app_export_genesis s other c item json expresses takes steps live =
          let (p, got) =
            Steps-IsStarted {c = record { phase = fresh; store = s }} item steps
              (λ live. absurd (live refl)) live in
          let gs : GenesisState = record { params = p } in
          let (bz, written) = expresses gs in
          let read = json gs bz written in
          let again : k.params.get (k.params.set other p).0 ≡ ok p = item other p (takes p) in
          (
            bz,
            (k.params.set other p).0,
            rw (got, app_export_genesis, written),
            rw (read, app_validate_genesis),
            rw (read, app_init_genesis, takes p),
            answers (k.params.set other p).0 p got again,
            rw (again, app_export_genesis, written),
          )
        where
          answers :
              (s' : Store) (p : Params)
              → k.params.get c.store ≡ ok p
              → k.params.get s' ≡ ok p
              → (req : Option QueryParamsRequest)
              → query_params k s' req ≡ query_params k c.store req
          answers s' p got again none = refl
          answers s' p got again (some req) = rw (again, got, query_params)
