-- ===== src/Cmd/InPlace/Init.antt =====
-- `initAppForTestnet` and `newTestnetApp`, part by part. An int64 is the 64-bit word that stands for it;
-- an iterator visits the keys that are there when it is made.
use tatcoin.Base.{ℕ, ◌+◌, ◌-◌, ◌%◌, ◌^◌, Option, none, some, List, [], ◌∷◌, false}
use tatcoin.Keeper.Sdk.{Outcome, ok, err}
use tatcoin.Cmd.Flags.{Text}
use tatcoin.Cmd.InPlace.Sdk.{Bytes, BondStatus, Validator, SigningInfo, Stores, Sdk}
use tatcoin.Cmd.InPlace.Args.{ValArgs, Options, get_command_args}

-- A run of the command: it goes on, it exits with code 1, or it panics.
pub data Exec (A : Type 0) : Type 0 where
  ran : A → Exec A
  exits : Exec A
  panics : Exec A

infixl 5 ◌>>=◌
abbrev pub ◌>>=◌ : {A B : Type 0} → Exec A → (A → Exec B) → Exec B
ran a >>= f = f a
exits >>= f = exits
panics >>= f = panics

-- `handleErr`
abbrev pub handle_err : {E A : Type 0} → Outcome E A → Exec A
handle_err (ok a) = ran a
handle_err (err e) = exits

-- `valVotingPower`, and the amount that an account is funded with
abbrev pub val_voting_power : ℕ
val_voting_power = 900000000000000

abbrev pub funded : ℕ
funded = 1000000000

module _ {E K D L B Any Decimal Coins : Type 0} (sdk : Sdk E K D L B Any Decimal Coins) where
  -- `newVal`
  unfoldable pub new_validator : Text → Any → Validator Any Decimal
  new_validator operator key = record {
    operator_address = operator;
    consensus_pubkey = key;
    jailed = false;
    status = BondStatus.bonded;
    tokens = val_voting_power;
    delegator_shares = sdk.decimal "10000000";
    moniker = "Testnet Validator";
    commission = record {
      rate = sdk.decimal "0.05";
      max_rate = sdk.decimal "0.1";
      max_change_rate = sdk.decimal "0.05";
    };
    min_self_delegation = 1;
  }

  -- `for ; iterator.Valid(); iterator.Next() { stakingStore.Delete(iterator.Key()) }`
  unfoldable pub delete_keys : List Bytes → K → K
  delete_keys [] k = k
  delete_keys (key ∷ keys) k = delete_keys keys (sdk.delete key k)

  -- The four loops that remove the validators.
  unfoldable pub remove_validators : K → Exec K
  unfolding delete_keys
  remove_validators k0 = do
    power ← handle_err (sdk.power_keys k0)
    let k1 = delete_keys power k0
    last ← handle_err (sdk.last_keys k1)
    let k2 = delete_keys last k1
    let k3 = delete_keys (sdk.prefix_keys sdk.validators_key k2) k2
    ran (delete_keys (sdk.prefix_keys sdk.validator_queue_key k3) k3)

  -- The writes of the new validator into the store of staking.
  unfoldable pub add_validator : Validator Any Decimal → Bytes → K → Exec K
  add_validator v address k0 = do
    k1 ← handle_err (sdk.set_validator v k0)
    k2 ← handle_err (sdk.set_validator_by_cons_addr v k1)
    k3 ← handle_err (sdk.set_validator_by_power_index v k2)
    handle_err (sdk.set_last_validator_power address 0 k3)

  -- The records of the new validator in the store of distribution.
  unfoldable pub set_distribution : Bytes → D → Exec D
  set_distribution address d0 = do
    d1 ← handle_err (sdk.set_historical_rewards address 0 1 d0)
    d2 ← handle_err (sdk.set_current_rewards address 1 d1)
    d3 ← handle_err (sdk.set_accumulated_commission address d2)
    handle_err (sdk.set_outstanding_rewards address d3)

  -- `newValidatorSigningInfo`, from the height of the last block
  unfoldable pub signing_info : Bytes → ℕ → SigningInfo
  signing_info cons_addr last_height = record {
    address = sdk.cons_to_text cons_addr;
    start_height = (last_height + 2 ^ 64 - 1) % 2 ^ 64;
    tombstoned = false;
  }

  -- `for _, accountStr := range args.accountsToFund`
  unfoldable pub fund_account : Coins → Text → B → Exec B
  fund_account coins text b0 = do
    b1 ← handle_err (sdk.mint_coins coins b0)
    account ← handle_err (sdk.account_to_bytes text)
    handle_err (sdk.send_coins_from_module_to_account account coins b1)

  unfoldable pub fund_accounts : Coins → List Text → B → Exec B
  unfolding fund_account
  fund_accounts coins [] b = ran b
  fund_accounts coins (text ∷ texts) b = fund_account coins text b >>= fund_accounts coins texts

  -- `initAppForTestnet`: the stores after it. `last_height` is the height of the last block.
  unfoldable pub init_app_for_testnet : ℕ → ValArgs → Stores K D L B → Exec (Stores K D L B)
  unfolding new_validator remove_validators add_validator set_distribution signing_info
      fund_accounts
  init_app_for_testnet last_height args s = do
    key ← handle_err (sdk.new_any args.new_val_pub_key)
    let v = new_validator args.new_operator_address key
    address ← handle_err (sdk.validator_to_bytes v.operator_address)
    k ← remove_validators s.staking
    k' ← add_validator v address k
    (d, l) ← handle_err (sdk.after_validator_created address k' (s.distr, s.slashing))
    d' ← set_distribution address d
    let (l', dropped) =
        sdk.set_signing_info args.new_val_addr (signing_info args.new_val_addr last_height) l
    denom ← handle_err (sdk.bond_denom k')
    b ← fund_accounts (sdk.new_coins denom funded) args.accounts_to_fund s.bank
    ran (record { staking = k'; distr = d'; slashing = l'; bank = b })

  -- What `newTestnetApp` does with the arguments, and with the app that `newApp` gives, which is none
  -- where it is not an `*app.App`: its last height and its stores.
  abbrev pub with_args :
      {X : Type 0} → ℕ → Stores K D L B → Outcome X ValArgs → Exec (Stores K D L B)
  with_args last_height s (err e) = panics
  with_args last_height s (ok args) = init_app_for_testnet last_height args s

  unfoldable pub new_testnet_app : Option (ℕ × Stores K D L B) → Options → Exec (Stores K D L B)
  unfolding get_command_args init_app_for_testnet
  new_testnet_app none opts = panics
  new_testnet_app (some (last_height, s)) opts = with_args last_height s (get_command_args opts)
