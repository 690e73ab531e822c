-- ===== src/Cmd/InPlace/Sdk.antt =====
-- What the in-place testnet takes from the SDK, over the stores of staking (`K`), distribution (`D`),
-- slashing (`L`) and the bank (`B`).
use Prim.Native.String.{String}
use tatcoin.Base.{ℕ, Option, List, Bool}
use tatcoin.Keeper.Sdk.{Outcome}
use tatcoin.Cmd.Flags.{Text}

abbrev pub Bytes : Type 0
Bytes = List ℕ

-- The status that `stakingtypes` has for a validator.
pub data BondStatus : Type 0 where
  unbonded unbonding bonded : BondStatus

-- `stakingtypes.CommissionRates`
pub record CommissionRates (Decimal : Type 0) : Type 0 where
  pub rate : Decimal
  pub max_rate : Decimal
  pub max_change_rate : Decimal

-- `stakingtypes.Validator`, the fields that are set
pub record Validator (Any Decimal : Type 0) : Type 0 where
  pub operator_address : Text
  pub consensus_pubkey : Any
  pub jailed : Bool
  pub status : BondStatus
  pub tokens : ℕ
  pub delegator_shares : Decimal
  pub moniker : String
  pub commission : CommissionRates Decimal
  pub min_self_delegation : ℕ

-- `slashingtypes.ValidatorSigningInfo`, the fields that are set
pub record SigningInfo : Type 0 where
  pub address : Text
  pub start_height : ℕ
  pub tombstoned : Bool

-- The stores of the app.
pub record Stores (K D L B : Type 0) : Type 0 where
  pub staking : K
  pub distr : D
  pub slashing : L
  pub bank : B

pub record Sdk (E K D L B Any Decimal Coins : Type 0) : Type 0 where
  -- `codectypes.NewAnyWithValue` of an ed25519 key, `math.LegacyMustNewDecFromStr`
  pub new_any : Bytes → Outcome E Any
  pub decimal : String → Decimal
  -- the codecs of validator addresses and of account addresses, and `ConsAddress.String`
  pub validator_to_bytes : Text → Outcome E Bytes
  pub account_to_bytes : Text → Outcome E Bytes
  pub cons_to_text : Bytes → Text
  -- the keys that ValidatorsPowerStoreIterator, LastValidatorsIterator and an iterator of the store
  -- over a prefix visit, and `Delete`
  pub power_keys : K → Outcome E (List Bytes)
  pub last_keys : K → Outcome E (List Bytes)
  pub prefix_keys : Bytes → K → List Bytes
  pub validators_key : Bytes
  pub validator_queue_key : Bytes
  pub delete : Bytes → K → K
  -- StakingKeeper
  pub set_validator : Validator Any Decimal → K → Outcome E K
  pub set_validator_by_cons_addr : Validator Any Decimal → K → Outcome E K
  pub set_validator_by_power_index : Validator Any Decimal → K → Outcome E K
  pub set_last_validator_power : Bytes → ℕ → K → Outcome E K
  pub bond_denom : K → Outcome E Text
  -- its hooks, which are those of distribution and slashing and read the store of staking
  pub after_validator_created : Bytes → K → D × L → Outcome E (D × L)
  -- DistrKeeper: historical rewards of a period and current rewards, both without coins and with the
  -- reference count or the period given, the commission and the outstanding rewards, both without coins
  pub set_historical_rewards : Bytes → ℕ → ℕ → D → Outcome E D
  pub set_current_rewards : Bytes → ℕ → D → Outcome E D
  pub set_accumulated_commission : Bytes → D → Outcome E D
  pub set_outstanding_rewards : Bytes → D → Outcome E D
  -- SlashingKeeper; the error of the write is dropped by the caller
  pub set_signing_info : Bytes → SigningInfo → L → L × Option E
  -- BankKeeper with the module account `mint`
  pub new_coins : Text → ℕ → Coins
  pub mint_coins : Coins → B → Outcome E B
  pub send_coins_from_module_to_account : Bytes → Coins → B → Outcome E B
