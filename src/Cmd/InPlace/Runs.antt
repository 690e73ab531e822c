-- ===== src/Cmd/InPlace/Runs.antt =====
-- The theorems of the in-place testnet at the small chain.
use tatcoin.Base.{ℕ, ◌+◌, ◌*◌, ◌≡◌, ◌≢◌, refl, some, List, [], ◌∷◌}
use tatcoin.Keeper.Server.{bytes_equal}
use tatcoin.Cmd.Flags.{Text}
use tatcoin.Cmd.InPlace.Sdk.{Bytes, Stores}
use tatcoin.Cmd.InPlace.Args.{ValArgs, Options}
use tatcoin.Cmd.InPlace.Init.{
  Exec, ran, exits, panics, funded, init_app_for_testnet, new_testnet_app,
}
use tatcoin.Cmd.InPlace.Fund.{times, init_app_for_testnet-balance, new_testnet_app_unfunded}
use tatcoin.Cmd.InPlace.Small.{
  keep_kind, remove, minter, Bank, small_sdk, supply, balance, small_sdk-IsBank, empty_text,
}

-- "a,b,a"
abbrev three_accounts : Text
three_accounts = 97 ∷ 44 ∷ 98 ∷ 44 ∷ 97 ∷ []

abbrev small_args : ValArgs
small_args = record {
  new_val_addr = 9 ∷ [];
  new_operator_address = 7 ∷ [];
  new_val_pub_key = 8 ∷ [];
  accounts_to_fund = (97 ∷ []) ∷ (98 ∷ []) ∷ (97 ∷ []) ∷ [];
  upgrade_to_trigger = [];
  home_dir = 47 ∷ [];
}

abbrev small_options : Options
small_options = record {
  new_val_addr = some (9 ∷ []);
  user_pub_key = some (8 ∷ []);
  new_op_addr = some (7 ∷ []);
  trigger_testnet_upgrade = some [];
  accounts_to_fund = three_accounts;
  home = 47 ∷ [];
}

-- One old validator, in three indexes, and a key of another kind.
abbrev old_stores : Stores (List Bytes) ℕ ℕ Bank
old_stores = record {
  staking = (1 ∷ 6 ∷ []) ∷ (2 ∷ 6 ∷ []) ∷ (3 ∷ 6 ∷ []) ∷ (6 ∷ []) ∷ [];
  distr = 0;
  slashing = 0;
  bank = (5, λ (x : Bytes). 0);
}

stores_of : Exec (Stores (List Bytes) ℕ ℕ Bank) → Stores (List Bytes) ℕ ℕ Bank
stores_of (ran s) = s
stores_of exits = old_stores
stores_of panics = old_stores

abbrev new_stores : Stores (List Bytes) ℕ ℕ Bank
new_stores = stores_of (init_app_for_testnet small_sdk 41 small_args old_stores)

init_app_for_testnet-balance_example :
    (supply [] new_stores.bank ≡ 5 + funded * 3)
    × (balance [] new_stores.bank (97 ∷ [])
        ≡ 0 + funded * times small_sdk small_args.accounts_to_fund (97 ∷ []))
    × (balance [] new_stores.bank minter ≡ 0)
unfolding init_app_for_testnet stores_of keep_kind remove bytes_equal
init_app_for_testnet-balance_example =
    init_app_for_testnet-balance small_sdk supply balance minter small_sdk-IsBank [] 41 small_args
      old_stores new_stores (97 ∷ []) refl refl

new_testnet_app_unfunded_example :
    new_testnet_app small_sdk
      (some (41, old_stores))
      (record small_options { accounts_to_fund = [] })
    ≢ ran new_stores
new_testnet_app_unfunded_example =
    new_testnet_app_unfunded small_sdk 41 (record small_options { accounts_to_fund = [] })
      old_stores new_stores empty_text refl refl
