-- ===== src/App/Wiring/Versions.antt =====
-- The module versions that the InitChainer of a new app hands on.
use tatcoin.Base.{◌≡◌, refl, sym, ap, ◌∙◌, Option, none, some, List, map, Bool, true, ◌||◌}
use tatcoin.Keeper.Sdk.{Outcome, ok, err}
use tatcoin.App.Run.{done, >>=-eq-done}
use tatcoin.App.Ended.{
  Ended, went_on, returned, or_return, >>=-eq-went_on, went_on-injective, or_return-went_on,
}
use tatcoin.App.Wiring.Config.{Name, app_config}
use tatcoin.App.Wiring.Names.{mem}
use tatcoin.App.Wiring.IbcSdk.{
  tendermint_client, solomachine_client, IbcModule, ibc_module, transfer_module, ica_module,
  light_client_module, IbcSdk,
}
use tatcoin.App.Wiring.Ibc.{
  Keepers, register_stores, new_keepers, set_routers, register_ibc_modules,
}
use tatcoin.App.Wiring.Orders.{ibc_names}
use tatcoin.App.Wiring.Build.{
  AppSdk, App, or_panic, ended_or_panic, then_init, new_app, init_chainer,
}

-- `Name()` of the modules of IBC
abbrev pub name_of :
    {Ibc Transfer Host Controller P : Type 0} → IbcModule Ibc Transfer Host Controller P → Name
name_of (ibc_module i) = Name.ibc
name_of (transfer_module t) = Name.ibc_transfer
name_of (ica_module c h) = Name.interchain_accounts
name_of (light_client_module (tendermint_client p)) = Name.tendermint
name_of (light_client_module (solomachine_client p)) = Name.solomachine

-- What the SDK documents: the modules that are registered are there, and stay; the version map has
-- those that are there; the versions that are set are stored beside those that were.
pub record IsApp
    {E A O Opts V W Req Res Key Table Subspace Ibc Transfer Host Controller Router RouterV2
      P : Type 0}
    (sdk : AppSdk E A O Opts V W Req Res)
    (ibc : IbcSdk E A Key Table Subspace Ibc Transfer Host Controller Router RouterV2 P)
    (modules : A → Name → Bool) (has : V → Name → Bool) (stored : W → Name → Bool) : Type 0 where
  pub registered :
      (ms : List (IbcModule Ibc Transfer Host Controller P)) (a a' : A) (n : Name)
      → ibc.register_modules ms a ≡ ok a'
      → modules a' n ≡ mem n (map name_of ms) || modules a n
  pub decoders_kept : (a : A) (n : Name) → modules (sdk.register_store_decoders a) n ≡ modules a n
  pub load_kept :
      (latest : Bool) (a a' : A) (n : Name) → sdk.load latest a ≡ ok a' → modules a' n ≡ modules a n
  pub versions : (a : A) (n : Name) → has (sdk.get_version_map a) n ≡ modules a n
  pub set :
      (v : V) (w w' : W) (n : Name)
      → sdk.set_module_version_map v w ≡ (none, w')
      → stored w' n ≡ has v n || stored w n

pub or_panic-done : {E X : Type 0} (r : Outcome E X) (x : X) → or_panic r ≡ done x → r ≡ ok x
or_panic-done (ok y) x e = cc
or_panic-done (err y) x e = cc

ended_or_panic-done :
    {E X : Type 0} (r : Ended E X) (x : X) → ended_or_panic r ≡ done x → r ≡ went_on x
ended_or_panic-done (went_on y) x e = cc
ended_or_panic-done (returned y) x e = cc
ended_or_panic-done Ended.panics x e = cc

module _
    {E A O Opts V W Req Res Key Table Subspace Ibc Transfer Host Controller Router RouterV2
      P : Type 0}
    (sdk : AppSdk E A O Opts V W Req Res)
    (ibc : IbcSdk E A Key Table Subspace Ibc Transfer Host Controller Router RouterV2 P)
    (modules : A → Name → Bool) (has : V → Name → Bool) (stored : W → Name → Bool)
    (law : IsApp sdk ibc modules has stored) where
  modules-register :
      (app app' : A) (keepers : Keepers Ibc Transfer Host Controller) (n : Name)
      → register_ibc_modules ibc app ≡ went_on (app', keepers)
      → mem n ibc_names ≡ true
      → modules app' n ≡ true
  unfolding register_ibc_modules
  modules-register app app' keepers n e one =
      let (app1, e1, f1) = >>=-eq-went_on (register_stores ibc app) _ e in
      let (made, e2, f2) = >>=-eq-went_on (new_keepers ibc app1) _ f1 in
      let ((keepers', p), e3, f3) = >>=-eq-went_on (set_routers ibc made) _ f2 in
      let (app2, e4, f4) = >>=-eq-went_on (or_return (ibc.register_modules _ app1)) _ f3 in
      let there : modules app2 n ≡ true =
        law.registered _ app1 app2 n (or_return-went_on _ app2 e4)
        ∙ ap (λ (b : Bool). b || modules app1 n) one in
      sym (ap (λ a. modules a n) (ap (λ x. x.0) (went_on-injective f4))) ∙ there

  modules-new_app :
      (opts : Opts) (options : List O) (latest : Bool)
      (a : App A (Keepers Ibc Transfer Host Controller)) (n : Name)
      → new_app sdk ibc opts options latest ≡ done a
      → mem n ibc_names ≡ true
      → modules a.app n ≡ true
  unfolding new_app
  modules-new_app opts options latest a n e one =
      let (injected, e1, f1) = >>=-eq-done (or_panic (sdk.inject app_config opts)) _ e in
      let ((registered, keepers), e2, f2) =
        >>=-eq-done (ended_or_panic (register_ibc_modules ibc _)) _ f1 in
      let (loaded, e3, f3) =
        >>=-eq-done (or_panic (sdk.load latest (sdk.register_store_decoders registered))) _ f2 in
      let there : modules loaded n ≡ true =
        law.load_kept latest _ loaded n (or_panic-done _ loaded e3)
        ∙ law.decoders_kept registered n
        ∙ modules-register _ registered keepers n (ended_or_panic-done _ (registered, keepers) e2)
            one in
      sym (same loaded f3) ∙ there
    where
      same :
          {k : Keepers Ibc Transfer Host Controller} (x : A)
          → done (record { app = x; keepers = k }) ≡ done a
          → modules x n ≡ modules a.app n
      same x p = cc

  -- Where the InitChainer of an app that `New` returned answers, the one of the runtime has answered so
  -- in a state in which the version of each module of IBC is stored.
  pub init_chainer-new_app :
      (opts : Opts) (options : List O) (latest : Bool)
      (a : App A (Keepers Ibc Transfer Host Controller)) (req : Req) (w w' : W) (res : Res)
      (n : Name)
      → new_app sdk ibc opts options latest ≡ done a
      → init_chainer sdk ibc a req w ≡ (ok res, w')
      → mem n ibc_names ≡ true
      → (w1 : W) × (stored w1 n ≡ true) × (sdk.init_chainer a.app req w1 ≡ (ok res, w'))
  unfolding init_chainer
  init_chainer-new_app opts options latest a req w w' res n made answered one =
      go (sdk.set_module_version_map (sdk.get_version_map a.app) w) refl answered
    where
      go :
          (r : Option E × W)
          → sdk.set_module_version_map (sdk.get_version_map a.app) w ≡ r
          → then_init sdk ibc a.app req r ≡ (ok res, w')
          → (w1 : W) × (stored w1 n ≡ true) × (sdk.init_chainer a.app req w1 ≡ (ok res, w'))
      go (some x, w1) e h = cc
      go (none, w1) e h = (
        w1,
        law.set _ w w1 n e
            ∙ ap (λ (b : Bool). b || stored w n)
                (law.versions a.app n ∙ modules-new_app opts options latest a n made one),
        h,
      )
