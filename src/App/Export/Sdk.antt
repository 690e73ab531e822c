-- ===== src/App/Export/Sdk.antt =====
-- What the export takes from the SDK. A text and an address in bytes are lists of numbers; an int64
-- height is a number.
use tatcoin.Base.{ℕ, Option, List, Bool}
use tatcoin.Keeper.Sdk.{Outcome}

abbrev pub Text : Type 0
Text = List ℕ

abbrev pub Address : Type 0
Address = List ℕ

-- `stakingtypes.Delegation`, as far as it is read here.
pub record Delegation : Type 0 where
  pub delegator_address : Text
  pub validator_address : Text

-- An entry of a redelegation or of an unbonding delegation; `other` is what stays as it is.
pub record Entry : Type 0 where
  pub creation_height : ℕ
  pub other : ℕ

-- `stakingtypes.Redelegation` and `stakingtypes.UnbondingDelegation`
pub record Unbonding : Type 0 where
  pub parties : Text
  pub entries : List Entry

-- `stakingtypes.Validator`; `other` is what stays as it is.
pub record Validator : Type 0 where
  pub operator_address : Text
  pub unbonding_height : ℕ
  pub jailed : Bool
  pub other : Text

-- `slashingtypes.ValidatorSigningInfo`
pub record SigningInfo : Type 0 where
  pub start_height : ℕ
  pub other : Text

-- The stores of the distribution module (with the bank), of staking and of slashing.
pub record State (D K L : Type 0) : Type 0 where
  pub distr : D
  pub staking : K
  pub slashing : L

pub record Sdk (E D K L Coins : Type 0) : Type 0 where
  -- the codecs of validator addresses and of account addresses
  pub validator_to_bytes : Text → Outcome E Address
  pub validator_to_text : Address → Outcome E Text
  pub account_to_bytes : Text → Outcome E Address
  -- StakingKeeper: the operators that IterateValidators visits, and GetAllDelegations
  pub operators : K → Outcome E (List Text)
  pub delegations : K → Outcome E (List Delegation)
  -- DistrKeeper; the errors of the two withdrawals are dropped by the caller
  pub withdraw_commission : ℕ → Address → D → D
  pub withdraw_rewards : ℕ → Address → Address → D → D
  pub delete_slash_events : D → D
  pub delete_historical_rewards : D → D
  pub outstanding_rewards : D → Address → Outcome E Coins
  pub community_pool : D → Outcome E Coins
  pub set_community_pool : Coins → D → Outcome E D
  pub add_coins : Coins → Coins → Coins
  -- its hooks, at the height of the context
  pub after_validator_created : ℕ → Address → D → Outcome E D
  pub before_delegation_created : ℕ → Address → Address → D → Outcome E D
  pub after_delegation_modified : ℕ → Address → Address → D → Outcome E D
  -- StakingKeeper: redelegations, unbonding delegations, the addresses in the validators' store, validators
  pub redelegations : K → Outcome E (List Unbonding)
  pub set_redelegation : Unbonding → K → Outcome E K
  pub unbonding_delegations : K → Outcome E (List Unbonding)
  pub set_unbonding_delegation : Unbonding → K → Outcome E K
  pub stored_addresses : K → List Address
  pub close_iterator : K → Option E
  pub get_validator : K → Address → Outcome E Validator
  pub set_validator : Validator → K → Outcome E K
  pub apply_updates : ℕ → State D K L → Outcome E (State D K L)
  -- SlashingKeeper; a write of a signing info gives the store after it and may give an error
  pub signing_infos : L → Outcome E (List (Address × SigningInfo))
  pub set_signing_info : Address → SigningInfo → L → L × Option E
