-- ===== src/App/Export/Defs.antt =====
-- `prepForZeroHeightGenesis`, part by part.
use tatcoin.Base.{
  ℕ, none, some, List, [], ◌∷◌, map, Bool, true, false, not, ◌&&◌, ◌||◌, ltb, if◌then◌else◌, length,
}
use tatcoin.Keeper.Sdk.{Outcome, ok, err}
use tatcoin.Keeper.Server.{bytes_equal}
use tatcoin.App.Run.{Run, done, panics, ◌>>=◌, ◌>>◌, each}
use tatcoin.App.Export.Sdk.{
  Text, Address, Delegation, Entry, Unbonding, Validator, SigningInfo, State, Sdk,
}

-- `if err != nil { panic(err) }`
abbrev pub must : {E A : Type 0} → Outcome E A → Run A
must (ok a) = done a
must (err e) = panics

-- `allowedAddrsMap[addr]`: the map has the addresses of the list.
unfoldable pub is_allowed : List Text → Text → Bool
is_allowed [] addr = false
is_allowed (x ∷ xs) addr = bytes_equal x addr || is_allowed xs addr

-- `red.Entries[i].CreationHeight = 0`, for one entry and for all
abbrev pub reset_entry : Entry → Entry
reset_entry e = record e { creation_height = 0 }

unfoldable pub reset_entries : Unbonding → Unbonding
reset_entries u = record u { entries = map reset_entry u.entries }

-- `validator.UnbondingHeight = 0`, and `Jailed = true` outside the list of allowed addresses
unfoldable pub reset_validator : List Text → Text → Validator → Validator
unfolding is_allowed
reset_validator allowed addr v = record v {
  unbonding_height = 0;
  jailed = if ltb 0 (length allowed) && not (is_allowed allowed addr) then true else v.jailed;
}

module _ {E D K L Coins : Type 0} (sdk : Sdk E D K L Coins) where
  -- The addresses that may stay unjailed must be readable.
  unfoldable pub check_allowed : List Text → Run (Unit {0})
  check_allowed [] = done tt
  check_allowed (addr ∷ rest) = must (sdk.validator_to_bytes addr) >>= λ _. check_allowed rest

  -- withdraw all validator commission
  unfoldable pub withdraw_commission_of : ℕ → Text → D → Run D
  withdraw_commission_of height operator d = do
    val ← must (sdk.validator_to_bytes operator)
    done (sdk.withdraw_commission height val d)

  -- withdraw all delegator rewards
  unfoldable pub withdraw_rewards_of : ℕ → Delegation → D → Run D
  withdraw_rewards_of height del d = do
    val ← must (sdk.validator_to_bytes del.validator_address)
    acc ← must (sdk.account_to_bytes del.delegator_address)
    done (sdk.withdraw_rewards height acc val d)

  -- reinitialize a validator: its outstanding rewards go to the community pool
  unfoldable pub reinitialize_validator : ℕ → Text → D → Run D
  reinitialize_validator height operator d = do
    val ← must (sdk.validator_to_bytes operator)
    rewards ← must (sdk.outstanding_rewards d val)
    pool ← must (sdk.community_pool d)
    d' ← must (sdk.set_community_pool (sdk.add_coins pool rewards) d)
    must (sdk.after_validator_created height val d')

  -- reinitialize a delegation
  unfoldable pub reinitialize_delegation : ℕ → Delegation → D → Run D
  reinitialize_delegation height del d = do
    val ← must (sdk.validator_to_bytes del.validator_address)
    acc ← must (sdk.account_to_bytes del.delegator_address)
    d' ← must (sdk.before_delegation_created height acc val d)
    must (sdk.after_delegation_modified height acc val d')

  -- Handle fee distribution state: withdrawals at the height of the context, the rest at height 0.
  unfoldable pub prepare_distribution : ℕ → K → D → Run D
  unfolding withdraw_commission_of withdraw_rewards_of reinitialize_validator
      reinitialize_delegation
  prepare_distribution height k d0 = do
    operators ← must (sdk.operators k)
    d1 ← each (withdraw_commission_of height) operators d0
    dels ← must (sdk.delegations k)
    d2 ← each (withdraw_rewards_of height) dels d1
    let d3 = sdk.delete_historical_rewards (sdk.delete_slash_events d2)
    d4 ← each (reinitialize_validator 0) operators d3
    each (reinitialize_delegation 0) dels d4

  -- iterate through redelegations and unbonding delegations, reset creation height
  unfoldable pub reset_redelegation : Unbonding → K → Run K
  unfolding reset_entries
  reset_redelegation red k = must (sdk.set_redelegation (reset_entries red) k)

  unfoldable pub reset_unbonding : Unbonding → K → Run K
  unfolding reset_entries
  reset_unbonding ubd k = must (sdk.set_unbonding_delegation (reset_entries ubd) k)

  -- a validator of the store
  unfoldable pub reset_stored : List Text → Address → K → Run K
  unfolding reset_validator
  reset_stored allowed addr k = do
    validator ← must (sdk.get_validator k addr)
    text ← must (sdk.validator_to_text addr)
    must (sdk.set_validator (reset_validator allowed text validator) k)

  -- Handle staking state, up to the closing of the iterator.
  unfoldable pub prepare_staking : List Text → K → Run K
  unfolding reset_redelegation reset_unbonding reset_stored
  prepare_staking allowed k0 = do
    reds ← must (sdk.redelegations k0)
    k1 ← each reset_redelegation reds k0
    ubds ← must (sdk.unbonding_delegations k1)
    k2 ← each reset_unbonding ubds k1
    each (reset_stored allowed) (sdk.stored_addresses k2) k2

  -- reset start height on signing infos
  unfoldable pub reset_infos : List (Address × SigningInfo) → L → L
  reset_infos [] l = l
  reset_infos ((addr, info) ∷ rest) l =
      reset_infos rest (sdk.set_signing_info addr (record info { start_height = 0 }) l).0

  -- Handle slashing state, after the updates of the validator set.
  unfoldable pub prepare_slashing : ℕ → State D K L → Run (State D K L)
  unfolding reset_infos
  prepare_slashing height s = do
    s' ← must (sdk.apply_updates height s)
    infos ← must (sdk.signing_infos s'.slashing)
    done (record s' { slashing = reset_infos infos s'.slashing })

  -- `prepForZeroHeightGenesis`. An error in closing the iterator is logged, and ends it early.
  unfoldable pub prep_for_zero_height_genesis : ℕ → List Text → State D K L → Run (State D K L)
  unfolding check_allowed prepare_distribution prepare_staking prepare_slashing
  prep_for_zero_height_genesis height allowed s = do
    check_allowed allowed
    d ← prepare_distribution height s.staking s.distr
    k ← prepare_staking allowed s.staking
    let s' : State D K L = record s { distr = d; staking = k }
    elim (sdk.close_iterator k) [ some e ↦ done s' | none ↦ prepare_slashing height s' ]
