-- ===== src/Keeper/Genesis.antt =====
-- The genesis of the module (x/tatcore/keeper/genesis.go, x/tatcore/module/module.go).
use tatcoin.Base.{ℕ, ◌≡◌, refl, ap, Option, none, some, List, true}
use tatcoin.Keeper.Sdk.{Outcome, ok, err, JsonCodec, IsItem, IsJson}
use tatcoin.Keeper.Server.{
  Keeper, Built, built, panics, init_genesis, export_genesis, query_params, default_genesis,
  validate_genesis,
}
use tatcoin.Keeper.AppModule.{
  app_default_genesis, app_validate_genesis, app_init_genesis, app_export_genesis,
}
use tatcoin.Proto.Params.{no_params}
use tatcoin.Proto.Genesis.{GenesisState}
use tatcoin.Proto.Query.{QueryParamsRequest}

module _ {E Store : Type 0} (k : Keeper E Store) where
  -- A genesis state that was written without an error is exported as it was, and a query gives its
  -- parameters, if the item gives back what was written.
  pub export_genesis-init_genesis :
      (s : Store) (gs : GenesisState) (req : QueryParamsRequest)
      → IsItem k.params
      → (init_genesis k s gs).1 ≡ none
      → let s' = (init_genesis k s gs).0 in
        (export_genesis k s' ≡ ok gs)
        × (query_params k s' (some req) ≡ ok (record { params = gs.params }))
  unfolding init_genesis export_genesis query_params
  export_genesis-init_genesis s gs req law fine =
      let got : k.params.get (k.params.set s gs.params).0 ≡ ok gs.params = law s gs.params fine in
      (rw (got, export_genesis), rw (got, query_params))

  -- Where the read of the parameters fails because they are not found, the query answers with the
  -- zero value, and the export fails with that error.
  pub unwritten_params :
      (s : Store) (e : E) (req : QueryParamsRequest)
      → k.params.get s ≡ err e
      → k.params.is_not_found e ≡ true
      → (query_params k s (some req) ≡ ok (record { params = no_params }))
        × (export_genesis k s ≡ err e)
  unfolding export_genesis query_params
  unwritten_params s e req missing found =
      (rw (missing, query_params, found), rw (missing, export_genesis))

-- If JSON expresses the default genesis and the store is initialised from it without a panic, then
-- the default genesis is valid, and the store exports the same JSON; JSON reads back what it wrote,
-- and the item gives back what was written.
pub app_export_genesis-app_init_genesis :
    {E Store : Type 0} (cdc : JsonCodec E) (k : Keeper E Store) (s s' : Store) (bz : List ℕ)
    → IsJson cdc
    → IsItem k.params
    → app_default_genesis cdc ≡ built bz
    → app_init_genesis cdc k s bz ≡ built s'
    → (app_validate_genesis cdc bz ≡ none) × (app_export_genesis cdc k s' ≡ built bz)
unfolding app_default_genesis app_init_genesis app_validate_genesis app_export_genesis
    validate_genesis init_genesis export_genesis
app_export_genesis-app_init_genesis {E} {Store} cdc k s s' bz json item default started =
    let read : cdc.unmarshal_json bz ≡ ok default_genesis = json default_genesis bz written in
    let (fine, after) =
      stored (init_genesis k s default_genesis) (rw (read, app_init_genesis) at started) in
    let got : k.params.get s' ≡ ok default_genesis.params =
      rw (← after) (item s default_genesis.params fine) in
    (rw (read, app_validate_genesis), rw (got, app_export_genesis, written))
  where
    store_of : Built Store → Store
    store_of (built x) = x
    store_of panics = s

    no_store : panics ≡ built s' → ⊥
    no_store p = cc

    stored :
        (w : Store × Option E)
        → elim w.1 as (λ x. Built Store) [ some e ↦ panics | none ↦ built w.0 ] ≡ built s'
        → (w.1 ≡ none) × (w.0 ≡ s')
    stored (x, none) e = (refl, ap store_of e)
    stored (x, some b) e = absurd (no_store e)

    bytes_of : Built (List ℕ) → List ℕ
    bytes_of (built b) = b
    bytes_of panics = bz

    marshalled :
        (r : Outcome E (List ℕ))
        → elim r as (λ x. Built (List ℕ)) [ ok bz ↦ built bz | err e ↦ panics ] ≡ built bz
        → r ≡ ok bz
    marshalled (ok b) e = ap (λ x. ok (bytes_of x)) e
    marshalled (err x) e = absurd (no_bytes e)
      where
        no_bytes : panics ≡ built bz → ⊥
        no_bytes p = cc

    written : cdc.marshal_json default_genesis ≡ ok bz
    written = marshalled (cdc.marshal_json default_genesis) default
