-- ===== src/App/Runs.antt =====
-- The theorem of the genesis account at a concrete account.
use tatcoin.Base.{ℕ, ◌≡◌, ◌↔◌, ◌⊎◌, Option, none, [], ◌∷◌, true, false, ◌==◌, arith}
use tatcoin.App.GenesisAccount.{
  GenesisAccount, Accounts, Before, IsModuleValid, validate_account, validate_account-none_iff,
}

abbrev small_accounts : Accounts ℕ ℕ ℕ
small_accounts = record {
  is_zero = λ coins. coins == 0;
  validate_module = λ base name permissions. none;
  validate_base = λ base. none;
}

-- Vesting from 5 to 9, with a module name.
abbrev vesting_account : GenesisAccount ℕ ℕ
vesting_account = record {
  base = 1;
  original_vesting = 100;
  start_time = 5;
  end_time = 9;
  module_name = 109 ∷ [];
  module_permissions = [];
}

validate_account-none_iff_example : (validate_account small_accounts vesting_account ≡ none) ↔ (
    ((false ≡ true) ⊎ Before 5 9)
    × IsModuleValid small_accounts vesting_account (109 ∷ [])
    × (◌≡◌ {A = Option ℕ} none none))
validate_account-none_iff_example =
    validate_account-none_iff small_accounts vesting_account (omega arith) (omega arith)
