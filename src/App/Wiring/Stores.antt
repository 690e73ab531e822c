-- ===== src/App/Wiring/Stores.antt =====
-- The store keys and the key tables that `registerIBCModules` leaves to its keepers.
use tatcoin.Base.{
  ◌≡◌, ◌≢◌, refl, sym, ap, ◌∙◌, Option, none, some, List, [], ◌∷◌, true, if◌then◌else◌,
}
use tatcoin.Keeper.Sdk.{ok}
use tatcoin.App.Ended.{went_on, or_return, >>=-eq-went_on, or_return-went_on}
use tatcoin.App.Wiring.Config.{Name}
use tatcoin.App.Wiring.Names.{same, mem}
use tatcoin.App.Wiring.IbcSdk.{kv, Stack, IbcSdk}
use tatcoin.App.Wiring.Ibc.{kv_only, get_key, get_subspace, register_stores}
use tatcoin.App.Wiring.Routes.{IsIbc}

-- The names of the stores.
abbrev pub ibc_stores : List Name
ibc_stores = Name.ibc ∷ Name.ibc_transfer ∷ Name.ica_host ∷ Name.ica_controller ∷ []

module _ {E A Key Table Subspace Ibc Transfer Host Controller Router RouterV2 P : Type 0}
    (sdk : IbcSdk E A Key Table Subspace Ibc Transfer Host Controller Router RouterV2 P)
    (route : Router → Name → Option (Stack Transfer Host Controller)) (router : Ibc → Router)
    (table : Subspace → Option Table) (law : IsIbc sdk route router table) where
  -- The key table of a subspace, by the app before.
  abbrev pub table_of : A → Name → Option Table
  table_of app n =
      if same n Name.ica_host
      then some sdk.host_key_table
      else if same n Name.ica_controller
      then some sdk.controller_key_table
      else if same n Name.ibc_transfer
      then some sdk.transfer_key_table
      else if same n Name.ibc
      then some (sdk.register_connection_params sdk.client_key_table)
      else table (get_subspace sdk n app)

  -- Once the stores are registered without an error, each of the four stores has a key, and each of the
  -- four subspaces its key table; no other subspace has changed its table since the stores were
  -- registered.
  pub register_stores-tables :
      (app app' : A) (store n : Name)
      → register_stores sdk app ≡ went_on app'
      → mem store ibc_stores ≡ true
      → (app1 : A) × (sdk.register_stores ibc_stores app ≡ ok app1)
        × (get_key sdk store app' ≢ none)
        × (table (get_subspace sdk n app') ≡ table_of app1 n)
  unfolding register_stores get_key get_subspace
  register_stores-tables app app' store n e one =
      let (app1, e1, f1) = >>=-eq-went_on (or_return (sdk.register_stores ibc_stores app)) _ e in
      let (app2, e2, f2) = >>=-eq-went_on (sdk.subspace_with_key_table Name.ibc _ app1) _ f1 in
      let (app3, e3, f3) =
        >>=-eq-went_on (sdk.subspace_with_key_table Name.ibc_transfer _ app2) _ f2 in
      let (app4, e4, f4) =
        >>=-eq-went_on (sdk.subspace_with_key_table Name.ica_controller _ app3) _ f3 in
      let done = or_return-went_on (sdk.register_stores ibc_stores app) app1 e1 in
      let (key, found) = law.stored ibc_stores store app app1 done one in
      let same_key : sdk.unsafe_find_store_key store app' ≡ kv key =
        law.store_kept Name.ica_host store _ app4 app' f4
        ∙ law.store_kept Name.ica_controller store _ app3 app4 e4
        ∙ law.store_kept Name.ibc_transfer store _ app2 app3 e3
        ∙ law.store_kept Name.ibc store _ app1 app2 e2
        ∙ found in
      (
        app1,
        done,
        λ missing. there key (sym (ap kv_only same_key) ∙ missing),
        rw
            (
              law.tabled Name.ica_host n _ app4 app' f4,
              law.tabled Name.ica_controller n _ app3 app4 e4,
              law.tabled Name.ibc_transfer n _ app2 app3 e3,
              law.tabled Name.ibc n _ app1 app2 e2,
            )
            refl,
      )
    where
      there : (key : Key) → some key ≢ none
      there key p = cc
