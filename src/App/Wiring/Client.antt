-- ===== src/App/Wiring/Client.antt =====
-- `RegisterIBC` (app/ibc.go): the modules of IBC on the side of the client.
use tatcoin.Base.{List, [], ◌∷◌, Bool, if◌then◌else◌}
use tatcoin.App.Run.{Run, done, ◌>>=◌, each}
use tatcoin.App.Wiring.Config.{Name}
use tatcoin.App.Wiring.IbcSdk.{
  tendermint_client, solomachine_client, IbcModule, ibc_module, transfer_module, ica_module,
  light_client_module,
}
use tatcoin.App.Wiring.Ibc.{Keepers}

module _ {Ibc Transfer Host Controller P R : Type 0} (empty : Keepers Ibc Transfer Host Controller)
    (no_store : P) (is_basic : IbcModule Ibc Transfer Host Controller P → Bool)
    (register_interfaces : IbcModule Ibc Transfer Host Controller P → R → Run R) where
  -- The map of the modules, over the zero values of the keepers and of the store provider.
  abbrev pub client_modules : List (Name × IbcModule Ibc Transfer Host Controller P)
  client_modules =
      (Name.ibc, ibc_module empty.ibc)
      ∷ (Name.ibc_transfer, transfer_module empty.transfer)
      ∷ (Name.interchain_accounts, ica_module empty.controller empty.host)
      ∷ (Name.tendermint, light_client_module (tendermint_client no_store))
      ∷ (Name.solomachine, light_client_module (solomachine_client no_store))
      ∷ []

  -- `if mr, ok := m.(module.AppModuleBasic); ok`
  abbrev pub register_basic : Name × IbcModule Ibc Transfer Host Controller P → R → Run R
  register_basic (n, m) r = if is_basic m then register_interfaces m r else done r

  -- `RegisterIBC`, over the interface registry of the codec. Go ranges over a map in any order; this is the
  -- order of the literal.
  unfoldable pub register_ibc : R → Run (List (Name × IbcModule Ibc Transfer Host Controller P) × R)
  unfolding each
  register_ibc r = each register_basic client_modules r >>= λ r'. done (client_modules, r')
