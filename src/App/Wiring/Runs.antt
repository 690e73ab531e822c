-- ===== src/App/Wiring/Runs.antt =====
-- The wiring at concrete names, and on a small chain.
use tatcoin.Base.{ℕ, ◌≡◌, refl, some, none, List, [], ◌∷◌, map, true, if◌then◌else◌}
use tatcoin.Keeper.Sdk.{ok}
use tatcoin.Keeper.Server.{bytes_equal}
use tatcoin.Cmd.Flags.{Text}
use tatcoin.App.Run.{done}
use tatcoin.App.Ended.{went_on}
use tatcoin.App.Wiring.Config.{Name, module_acc_perms, block_acc_addrs}
use tatcoin.App.Wiring.Names.{code, mem}
use tatcoin.App.Wiring.Accounts.{find, blocked_addresses}
use tatcoin.App.Wiring.Blocked.{
  listed, blockers, find-blocked_addresses, blocked_addresses-unblocked,
}
use tatcoin.App.Wiring.IbcSdk.{ica_host_stack, ica_controller_stack, transfer_stack}
use tatcoin.App.Wiring.Ibc.{
  Keepers, register_stores, new_keepers, set_routers, register_ibc_modules,
}
use tatcoin.App.Wiring.Routes.{stack_of, route-register_ibc_modules}
use tatcoin.App.Wiring.Stores.{ibc_stores}
use tatcoin.App.Wiring.Orders.{ibc_names}
use tatcoin.App.Wiring.Build.{App, new_app, init_chainer}
use tatcoin.App.Wiring.Versions.{init_chainer-new_app}
use tatcoin.App.Wiring.Small.{
  look, Chain, empty_chain, Routes, small_ibc, small_app, small_ibc-IsIbc, small_app-IsApp,
}

-- Texts of one byte.
abbrev short : Name → Text
short n = code n ∷ []

-- The texts of the module accounts.
abbrev real : Name → Text
real Name.fee_collector =
    102 ∷ 101 ∷ 101 ∷ 95 ∷ 99 ∷ 111 ∷ 108 ∷ 108 ∷ 101 ∷ 99 ∷ 116 ∷ 111 ∷ 114 ∷ []
real Name.distr = 100 ∷ 105 ∷ 115 ∷ 116 ∷ 114 ∷ 105 ∷ 98 ∷ 117 ∷ 116 ∷ 105 ∷ 111 ∷ 110 ∷ []
real Name.mint = 109 ∷ 105 ∷ 110 ∷ 116 ∷ []
real Name.bonded_pool =
    98 ∷ 111 ∷ 110 ∷ 100 ∷ 101 ∷ 100 ∷ 95 ∷ 116 ∷ 111 ∷ 107 ∷ 101 ∷ 110 ∷ 115 ∷ 95 ∷ 112 ∷ 111 ∷ 111
    ∷ 108 ∷ []
real Name.not_bonded_pool =
    110 ∷ 111 ∷ 116 ∷ 95 ∷ 98 ∷ 111 ∷ 110 ∷ 100 ∷ 101 ∷ 100 ∷ 95 ∷ 116 ∷ 111 ∷ 107 ∷ 101 ∷ 110 ∷ 115
    ∷ 95 ∷ 112 ∷ 111 ∷ 111 ∷ 108 ∷ []
real Name.gov = 103 ∷ 111 ∷ 118 ∷ []
real Name.nft = 110 ∷ 102 ∷ 116 ∷ []
real Name.ibc_transfer = 116 ∷ 114 ∷ 97 ∷ 110 ∷ 115 ∷ 102 ∷ 101 ∷ 114 ∷ []
real Name.interchain_accounts =
    105 ∷ 110 ∷ 116 ∷ 101 ∷ 114 ∷ 99 ∷ 104 ∷ 97 ∷ 105 ∷ 110 ∷ 97 ∷ 99 ∷ 99 ∷ 111 ∷ 117 ∷ 110 ∷ 116
    ∷ 115 ∷ []
real n = []

-- No address is listed, so that the only account is blocked.
find-blocked_addresses_example :
    find
      (short Name.mint)
      (blocked_addresses short [] (record { account = Name.mint; permissions = [] } ∷ []))
    ≡ (if listed
          (short Name.mint)
          (map short (blockers [] (record { account = Name.mint; permissions = [] } ∷ [])))
        then some true
        else none)
find-blocked_addresses_example =
    find-blocked_addresses short (short Name.mint) []
      (record { account = Name.mint; permissions = [] } ∷ [])

blocked_addresses-unblocked_example :
    find (real Name.ibc_transfer) (blocked_addresses real block_acc_addrs module_acc_perms) ≡ none
unfolding bytes_equal
blocked_addresses-unblocked_example = blocked_addresses-unblocked real Name.ibc_transfer refl refl

-- What `New` returns here, with its keepers.
abbrev made : App Chain (Keepers Routes ℕ ℕ ℕ)
made = record {
  app = record {
    stores = ibc_stores;
    tables =
        (Name.ica_host, 40)
        ∷ (Name.ica_controller, 30)
        ∷ (Name.ibc_transfer, 20)
        ∷ (Name.ibc, 11)
        ∷ [];
    modules = ibc_names;
  };
  keepers = record {
    ibc =
        (Name.ica_host, ica_host_stack 2)
        ∷ (Name.ica_controller, ica_controller_stack 3)
        ∷ (Name.ibc_transfer, transfer_stack 1)
        ∷ [];
    transfer = 1;
    host = 2;
    controller = 3;
  };
}

new_app-made : new_app small_app small_ibc 5 (6 ∷ []) true ≡ done made
unfolding new_app register_ibc_modules register_stores new_keepers set_routers
new_app-made = refl

register-made : register_ibc_modules small_ibc empty_chain ≡ went_on (made.app, made.keepers)
unfolding register_ibc_modules register_stores new_keepers set_routers
register-made = refl

init_chainer-new_app_example :
    (w1 : List Name) × (mem Name.tendermint w1 ≡ true)
    × (small_app.init_chainer made.app 9 w1 ≡ (ok 9, ibc_names))
unfolding init_chainer
init_chainer-new_app_example =
    init_chainer-new_app small_app small_ibc (λ c n. mem n c.modules) (λ v n. mem n v)
      (λ w n. mem n w) small_app-IsApp 5 (6 ∷ []) true made 9 [] ibc_names 9 Name.tendermint
      new_app-made refl refl

route-register_ibc_modules_example :
    look Name.ica_host made.keepers.ibc
    ≡ stack_of small_ibc
        (λ r n. look n r)
        (λ ibc. ibc)
        (λ s. s)
        small_ibc-IsIbc
        made.keepers
        Name.ica_host
route-register_ibc_modules_example =
    route-register_ibc_modules small_ibc (λ r n. look n r) (λ ibc. ibc) (λ s. s) small_ibc-IsIbc
      empty_chain made.app made.keepers Name.ica_host register-made
