-- ===== src/App/Wiring/Build.antt =====
-- `New` (app/app.go), and the InitChainer that it sets.
use tatcoin.Base.{Option, none, some, List, [], ◌∷◌, ◌++◌, Bool}
use tatcoin.Keeper.Sdk.{Outcome, ok, err}
use tatcoin.App.Run.{Run, done, ◌>>=◌}
use tatcoin.App.Ended.{Ended, went_on, returned}
use tatcoin.App.Wiring.Config.{ModuleConfig, app_config}
use tatcoin.App.Wiring.IbcSdk.{IbcSdk}
use tatcoin.App.Wiring.Ibc.{Keepers, register_ibc_modules}

-- An option of the base app: one that `New` is given, or `SetOptimisticExecution()`.
pub data BaseOption (O : Type 0) : Type 0 where
  given : O → BaseOption O
  optimistic_execution : BaseOption O

-- What `New` takes from the SDK. `Opts` is the supply of the injection; `W` is the state behind the
-- context of InitChain, and `V` a module version map.
pub record AppSdk (E A O Opts V W Req Res : Type 0) : Type 0 where
  pub inject : List ModuleConfig → Opts → Outcome E A
  pub build : List (BaseOption O) → A → A
  pub register_store_decoders : A → A
  pub load : Bool → A → Outcome E A
  pub get_version_map : A → V
  pub set_module_version_map : V → W → Option E × W
  pub init_chainer : A → Req → W → Outcome E Res × W

-- `App`: that of the runtime, and the keepers of IBC.
pub record App (A K : Type 0) : Type 0 where
  pub app : A
  pub keepers : K

-- `if err != nil { panic(err) }`
abbrev pub or_panic : {E X : Type 0} → Outcome E X → Run X
or_panic (ok x) = done x
or_panic (err e) = Run.panics

abbrev pub ended_or_panic : {E X : Type 0} → Ended E X → Run X
ended_or_panic (went_on x) = done x
ended_or_panic (returned e) = Run.panics
ended_or_panic Ended.panics = Run.panics

-- The options that are given, in a list of both kinds.
abbrev pub all_given : {O : Type 0} → List O → List (BaseOption O)
all_given [] = []
all_given (o ∷ os) = given o ∷ all_given os

module _ {E A O Opts V W Req Res : Type 0} (sdk : AppSdk E A O Opts V W Req Res)
    {Key Table Subspace Ibc Transfer Host Controller Router RouterV2 P : Type 0}
    (ibc : IbcSdk E A Key Table Subspace Ibc Transfer Host Controller Router RouterV2 P) where
  -- `New`
  unfoldable pub new_app : Opts → List O → Bool → Run (App A (Keepers Ibc Transfer Host Controller))
  unfolding register_ibc_modules
  new_app app_opts base_app_options load_latest = do
    injected ← or_panic (sdk.inject app_config app_opts)
    let built = sdk.build (all_given base_app_options ++ (optimistic_execution ∷ [])) injected
    (registered, keepers) ← ended_or_panic (register_ibc_modules ibc built)
    loaded ← or_panic (sdk.load load_latest (sdk.register_store_decoders registered))
    done (record { app = loaded; keepers = keepers })

  -- The function that `SetInitChainer` is given.
  abbrev pub then_init : A → Req → Option E × W → Outcome E Res × W
  then_init app req (some e, w) = (err e, w)
  then_init app req (none, w) = sdk.init_chainer app req w

  unfoldable pub init_chainer :
      App A (Keepers Ibc Transfer Host Controller) → Req → W → Outcome E Res × W
  init_chainer a req w =
      then_init a.app req (sdk.set_module_version_map (sdk.get_version_map a.app) w)
