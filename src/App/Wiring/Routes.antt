-- ===== src/App/Wiring/Routes.antt =====
-- The routes and the keepers of IBC that `registerIBCModules` leaves.
use tatcoin.Base.{◌≡◌, refl, sym, ap, ◌∙◌, Option, none, some, List, true, if◌then◌else◌}
use tatcoin.Keeper.Sdk.{ok}
use tatcoin.App.Ended.{went_on, or_return, >>=-eq-went_on, went_on-injective}
use tatcoin.App.Wiring.Config.{Name}
use tatcoin.App.Wiring.Names.{same, mem}
use tatcoin.App.Wiring.IbcSdk.{
  kv, Stack, transfer_stack, ica_controller_stack, ica_host_stack, IbcSdk,
}
use tatcoin.App.Wiring.Ibc.{
  Keepers, register_stores, new_keepers, set_routers, register_ibc_modules,
}

-- What the libraries document: a route that is added is the route of its name, and the routes of
-- others stay; what is set on the keeper of IBC is on it, and nothing else changes its router; a store
-- that is registered is found; a key table is the one of its subspace.
pub record IsIbc {E A Key Table Subspace Ibc Transfer Host Controller Router RouterV2 P : Type 0}
    (sdk : IbcSdk E A Key Table Subspace Ibc Transfer Host Controller Router RouterV2 P)
    (route : Router → Name → Option (Stack Transfer Host Controller)) (router : Ibc → Router)
    (table : Subspace → Option Table) : Type 0 where
  pub no_route : (n : Name) → route sdk.new_router n ≡ none
  pub routed :
      (n m : Name) (s : Stack Transfer Host Controller) (r r' : Router)
      → sdk.add_route n s r ≡ went_on r'
      → route r' m ≡ (if same m n then some s else route r m)
  pub router_set : (r : Router) (i i' : Ibc) → sdk.set_router r i ≡ went_on i' → router i' ≡ r
  pub router_v2_set :
      (r : RouterV2) (i i' : Ibc) → sdk.set_router_v2 r i ≡ went_on i' → router i' ≡ router i
  pub client_routed :
      (n : Name) (i i' : Ibc) (c : _)
      → sdk.add_client_route n c i ≡ went_on i'
      → router i' ≡ router i
  pub stored :
      (ns : List Name) (n : Name) (a a' : A)
      → sdk.register_stores ns a ≡ ok a'
      → mem n ns ≡ true
      → (k : Key) × (sdk.unsafe_find_store_key n a' ≡ kv k)
  pub store_kept :
      (n m : Name) (t : Table) (a a' : A)
      → sdk.subspace_with_key_table n t a ≡ went_on a'
      → sdk.unsafe_find_store_key m a' ≡ sdk.unsafe_find_store_key m a
  pub tabled :
      (n m : Name) (t : Table) (a a' : A)
      → sdk.subspace_with_key_table n t a ≡ went_on a'
      → table (sdk.get_subspace m a').0
        ≡ (if same m n then some t else table (sdk.get_subspace m a).0)

module _ {E A Key Table Subspace Ibc Transfer Host Controller Router RouterV2 P : Type 0}
    (sdk : IbcSdk E A Key Table Subspace Ibc Transfer Host Controller Router RouterV2 P)
    (route : Router → Name → Option (Stack Transfer Host Controller)) (router : Ibc → Router)
    (table : Subspace → Option Table) (law : IsIbc sdk route router table) where
  -- The stack of a name, over the keepers of the app.
  abbrev pub stack_of :
      Keepers Ibc Transfer Host Controller → Name → Option (Stack Transfer Host Controller)
  stack_of keepers n =
      if same n Name.ica_host
      then some (ica_host_stack keepers.host)
      else if same n Name.ica_controller
      then some (ica_controller_stack keepers.controller)
      else if same n Name.ibc_transfer
      then some (transfer_stack keepers.transfer)
      else none

  route-set_routers :
      (made keepers : Keepers Ibc Transfer Host Controller) (p : P) (n : Name)
      → set_routers sdk made ≡ went_on (keepers, p)
      → route (router keepers.ibc) n ≡ stack_of keepers n
  unfolding set_routers
  route-set_routers made keepers p n e =
      let (r1, e1, f1) =
        >>=-eq-went_on
          (sdk.add_route Name.ibc_transfer (transfer_stack made.transfer) sdk.new_router) _ e in
      let (r2, e2, f2) =
        >>=-eq-went_on (sdk.add_route Name.ica_controller (ica_controller_stack made.controller) r1)
          _ f1 in
      let (r3, e3, f3) =
        >>=-eq-went_on (sdk.add_route Name.ica_host (ica_host_stack made.host) r2) _ f2 in
      let (v2, e4, f4) =
        >>=-eq-went_on (sdk.add_route_v2 Name.ibc_transfer made.transfer sdk.new_router_v2) _ f3 in
      let (i1, e5, f5) = >>=-eq-went_on (sdk.set_router r3 made.ibc) _ f4 in
      let (i2, e6, f6) = >>=-eq-went_on (sdk.set_router_v2 v2 i1) _ f5 in
      let (i3, e7, f7) = >>=-eq-went_on (sdk.add_client_route Name.tendermint _ i2) _ f6 in
      let (i4, e8, f8) = >>=-eq-went_on (sdk.add_client_route Name.solomachine _ i3) _ f7 in
      let whole = went_on-injective f8 in
      let keeper : i4 ≡ keepers.ibc = ap (λ x. x.0.ibc) whole in
      let transfer : made.transfer ≡ keepers.transfer = ap (λ x. x.0.transfer) whole in
      let host : made.host ≡ keepers.host = ap (λ x. x.0.host) whole in
      let controller : made.controller ≡ keepers.controller = ap (λ x. x.0.controller) whole in
      let set : router keepers.ibc ≡ r3 =
        sym (ap router keeper)
        ∙ law.client_routed Name.solomachine i3 i4 _ e8
        ∙ law.client_routed Name.tendermint i2 i3 _ e7
        ∙ law.router_v2_set v2 i1 i2 e6
        ∙ law.router_set r3 made.ibc i1 e5 in
      rw
        (
          set,
          law.routed Name.ica_host n _ r2 r3 e3,
          law.routed Name.ica_controller n _ r1 r2 e2,
          law.routed Name.ibc_transfer n _ sdk.new_router r1 e1,
          law.no_route n,
          host,
          controller,
          transfer,
        )
        refl

  -- After a registration that went on, the router of the keeper of IBC has for the names of
  -- ibc-transfer and of the two interchain accounts the stacks over the keepers of the app, and no
  -- other route.
  pub route-register_ibc_modules :
      (app app' : A) (keepers : Keepers Ibc Transfer Host Controller) (n : Name)
      → register_ibc_modules sdk app ≡ went_on (app', keepers)
      → route (router keepers.ibc) n ≡ stack_of keepers n
  unfolding register_ibc_modules
  route-register_ibc_modules app app' keepers n e =
      let (app1, e1, f1) = >>=-eq-went_on (register_stores sdk app) _ e in
      let (made, e2, f2) = >>=-eq-went_on (new_keepers sdk app1) _ f1 in
      let ((keepers', p), e3, f3) = >>=-eq-went_on (set_routers sdk made) _ f2 in
      let (app2, e4, f4) = >>=-eq-went_on (or_return (sdk.register_modules _ app1)) _ f3 in
      let same : keepers' ≡ keepers = ap (λ x. x.1) (went_on-injective f4) in
      route-set_routers made keepers p n (e3 ∙ ap (λ k. went_on (k, p)) same)
