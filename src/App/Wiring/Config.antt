-- ===== src/App/Wiring/Config.antt =====
-- `appConfig` and the tables it uses (app/app_config.go). The names are constants of the packages that
-- the app imports, one constructor for each text: a module, its store and its port that have the same
-- text are the same name. The text is a parameter where it matters.
use Prim.Native.String.{String}
use tatcoin.Base.{ℕ, List, [], ◌∷◌, Bool, true}

pub data Name : Type 0 where
  -- names of modules
  runtime auth vesting bank staking slashing tx genutil authz upgrade distr evidence mint : Name
  group nft feegrant gov consensus circuit params epochs tatcore : Name
  ibc ibc_transfer interchain_accounts ica_host ica_controller tendermint solomachine : Name
  -- accounts and permissions
  fee_collector bonded_pool not_bonded_pool minter burner : Name

-- `authmodulev1.ModuleAccountPermission`
pub record AccountPermission : Type 0 where
  pub account : Name
  pub permissions : List Name

-- `moduleAccPerms`
abbrev pub module_acc_perms : List AccountPermission
module_acc_perms =
    record { account = Name.fee_collector; permissions = [] }
    ∷ record { account = Name.distr; permissions = [] }
    ∷ record { account = Name.mint; permissions = Name.minter ∷ [] }
    ∷ record { account = Name.bonded_pool; permissions = Name.burner ∷ Name.staking ∷ [] }
    ∷ record { account = Name.not_bonded_pool; permissions = Name.burner ∷ Name.staking ∷ [] }
    ∷ record { account = Name.gov; permissions = Name.burner ∷ [] }
    ∷ record { account = Name.nft; permissions = [] }
    ∷ record { account = Name.ibc_transfer; permissions = Name.minter ∷ Name.burner ∷ [] }
    ∷ record { account = Name.interchain_accounts; permissions = [] }
    ∷ []

-- `blockAccAddrs`
abbrev pub block_acc_addrs : List Name
block_acc_addrs =
    Name.fee_collector ∷ Name.distr ∷ Name.mint ∷ Name.bonded_pool ∷ Name.not_bonded_pool ∷ Name.nft
    ∷ []

-- `runtimev1alpha1.Module`: the orders of the hooks.
pub record RuntimeModule : Type 0 where
  pub app_name : String
  pub pre_blockers : List Name
  pub begin_blockers : List Name
  pub end_blockers : List Name
  pub override_store_keys : List (Name × String)
  pub init_genesis : List Name

-- The settings of a module; a duration is its seconds.
pub data Settings : Type 0 where
  runtime_settings : RuntimeModule → Settings
  auth_settings :
      (bech32_prefix : String) (module_account_permissions : List AccountPermission)
      (enable_unordered_transactions : Bool)
      → Settings
  bank_settings : (blocked_module_accounts_override : List Name) → Settings
  group_settings : (max_execution_period : ℕ) (max_metadata_len : ℕ) → Settings
  no_settings : Settings

pub record ModuleConfig : Type 0 where
  pub name : Name
  pub config : Settings

-- `Name` and `AccountAddressPrefix`
abbrev pub app_name : String
app_name = "tatcoin"

abbrev pub account_address_prefix : String
account_address_prefix = "tat"

abbrev pub runtime_module : RuntimeModule
runtime_module = record {
  app_name = app_name;
  pre_blockers = Name.upgrade ∷ Name.auth ∷ [];
  begin_blockers =
      Name.mint ∷ Name.distr ∷ Name.slashing ∷ Name.evidence ∷ Name.staking ∷ Name.authz
      ∷ Name.epochs ∷ Name.ibc ∷ Name.tatcore ∷ [];
  end_blockers = Name.gov ∷ Name.staking ∷ Name.feegrant ∷ Name.group ∷ Name.tatcore ∷ [];
  override_store_keys = (Name.auth, "acc") ∷ [];
  init_genesis =
      Name.consensus ∷ Name.auth ∷ Name.bank ∷ Name.distr ∷ Name.staking ∷ Name.slashing ∷ Name.gov
      ∷ Name.mint ∷ Name.genutil ∷ Name.evidence ∷ Name.authz ∷ Name.feegrant ∷ Name.vesting
      ∷ Name.nft ∷ Name.group ∷ Name.upgrade ∷ Name.circuit ∷ Name.epochs ∷ Name.ibc
      ∷ Name.ibc_transfer ∷ Name.interchain_accounts ∷ Name.tatcore ∷ [];
}

-- A module with no settings of its own.
abbrev plain : Name → ModuleConfig
plain n = record { name = n; config = no_settings }

-- The modules of `appConfig`.
abbrev pub app_config : List ModuleConfig
app_config =
    record { name = Name.runtime; config = runtime_settings runtime_module }
    ∷ record {
      name = Name.auth;
      config = auth_settings account_address_prefix module_acc_perms true;
    }
    ∷ plain Name.vesting
    ∷ record { name = Name.bank; config = bank_settings block_acc_addrs }
    ∷ plain Name.staking
    ∷ plain Name.slashing
    ∷ plain Name.tx
    ∷ plain Name.genutil
    ∷ plain Name.authz
    ∷ plain Name.upgrade
    ∷ plain Name.distr
    ∷ plain Name.evidence
    ∷ plain Name.mint
    ∷ record { name = Name.group; config = group_settings 1209600 255 }
    ∷ plain Name.nft
    ∷ plain Name.feegrant
    ∷ plain Name.gov
    ∷ plain Name.consensus
    ∷ plain Name.circuit
    ∷ plain Name.params
    ∷ plain Name.epochs
    ∷ plain Name.tatcore
    ∷ []
