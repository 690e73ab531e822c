-- ===== src/App/Export/Ledger.antt =====
-- A small chain with balances, unbondings and signing infos, and the theorems on them.
use tatcoin.Base.{
  ℕ, ◌+◌, ◌≡◌, refl, sym, ap, ◌∙◌, inl, Option, none, some, List, [], ◌∷◌, map, Bool, true, false,
  ◌||◌, if◌then◌else◌,
}
use tatcoin.Keeper.Sdk.{Outcome, ok}
use tatcoin.Keeper.Server.{bytes_equal}
use tatcoin.App.Run.{Run, done, each}
use tatcoin.App.Export.Sdk.{Text, Address, Unbonding, Validator, SigningInfo, State, Sdk}
use tatcoin.App.Export.Defs.{
  check_allowed, reset_entries, prepare_distribution, withdraw_commission_of, withdraw_rewards_of,
  reinitialize_validator, reinitialize_delegation, prepare_staking, reset_redelegation,
  reset_unbonding, reset_stored, prepare_slashing, reset_infos, prep_for_zero_height_genesis,
}
use tatcoin.App.Export.Validators.{visited}
use tatcoin.App.Export.ZeroHeight.{AtZero, IsUnbondingStore}
use tatcoin.App.Export.Prepared.{prep-AtZero}
use tatcoin.App.Export.Pool.{IsPool, owed_to, operates, pool-reinitialize_validator}

-- The pool, and what is owed.
abbrev Funds : Type 0
Funds = ℕ × (Address → ℕ)

record Bonds : Type 0 where
  reds : List Unbonding
  ubds : List Unbonding

abbrev Infos : Type 0
Infos = List (Address × SigningInfo)

find_bond : List Unbonding → Text → Option Unbonding
find_bond [] p = none
find_bond (u ∷ us) p = if bytes_equal u.parties p then some u else find_bond us p

find_info : Infos → Address → Option SigningInfo
find_info [] a = none
find_info ((b, i) ∷ xs) a = if bytes_equal b a then some i else find_info xs a

abbrev nobody : Validator
nobody = record { operator_address = []; unbonding_height = 0; jailed = false; other = [] }

abbrev ledger : Sdk ℕ Funds Bonds Infos ℕ
ledger = record {
  validator_to_bytes = λ t. ok t;
  validator_to_text = λ a. ok a;
  account_to_bytes = λ t. ok t;
  operators = λ k. ok ((1 ∷ []) ∷ (2 ∷ []) ∷ []);
  delegations = λ k. ok [];
  withdraw_commission = λ h a d. d;
  withdraw_rewards = λ h a b d. d;
  delete_slash_events = λ d. d;
  delete_historical_rewards = λ d. d;
  outstanding_rewards = λ d a. ok (d.1 a);
  community_pool = λ d. ok d.0;
  set_community_pool = λ c d. ok (c, d.1);
  add_coins = λ a b. a + b;
  after_validator_created = λ h a d. ok (d.0, λ b. if bytes_equal a b then 0 else d.1 b);
  before_delegation_created = λ h a b d. ok d;
  after_delegation_modified = λ h a b d. ok d;
  redelegations = λ k. ok k.reds;
  set_redelegation = λ u k. ok (record k { reds = u ∷ k.reds });
  unbonding_delegations = λ k. ok k.ubds;
  set_unbonding_delegation = λ u k. ok (record k { ubds = u ∷ k.ubds });
  stored_addresses = λ k. [];
  close_iterator = λ k. none;
  get_validator = λ k a. ok nobody;
  set_validator = λ v k. ok k;
  apply_updates = λ h s. ok s;
  signing_infos = λ l. ok l;
  set_signing_info = λ a i l. ((a, i) ∷ l, none);
}

ok_injective : {A : Type 0} {a b : A} → ◌≡◌ {A = Outcome ℕ A} (ok a) (ok b) → a ≡ b
ok_injective {a = a} e = cc

bond_listed :
    (us : List Unbonding) (p : Text) (u : Unbonding)
    → find_bond us p ≡ some u
    → visited (map (λ x. x.parties) us) p ≡ true
unfolding find_bond visited
bond_listed [] p u e = cc
bond_listed (x ∷ us) p u e = go (bytes_equal x.parties p) (bond_listed us p u) e
  where
    go :
        (b : Bool)
        → (find_bond us p ≡ some u → visited (map (λ y. y.parties) us) p ≡ true)
        → (if b then some x else find_bond us p) ≡ some u
        → b || visited (map (λ y. y.parties) us) p ≡ true
    go true later h = refl
    go false later h = later h

ledger-IsUnbondingStore :
    IsUnbondingStore ledger (λ k p. find_bond k.reds p) (λ k p. find_bond k.ubds p)
unfolding find_bond
ledger-IsUnbondingStore = record {
  red_listed = λ k us p u e found.
      bond_listed us p u
        (ap (λ (xs : List Unbonding). find_bond xs p) (sym (ok_injective e)) ∙ found);
  red_set = λ u k k' p e. ap (λ (x : Bonds). find_bond x.reds p) (sym (ok_injective e));
  ubd_listed = λ k us p u e found.
      bond_listed us p u
        (ap (λ (xs : List Unbonding). find_bond xs p) (sym (ok_injective e)) ∙ found);
  ubd_set = λ u k k' p e. ap (λ (x : Bonds). find_bond x.ubds p) (sym (ok_injective e));
  red_kept = λ u k k' p e. ap (λ (x : Bonds). find_bond x.reds p) (sym (ok_injective e));
  validator_kept = λ v k k' p e.
      let same = sym (ok_injective e) in
      (ap (λ (x : Bonds). find_bond x.reds p) same, ap (λ (x : Bonds). find_bond x.ubds p) same);
  updates_kept = λ h s s' p e.
      let same = sym (ok_injective e) in
      (
        ap (λ (x : State Funds Bonds Infos). find_bond x.staking.reds p) same,
        ap (λ (x : State Funds Bonds Infos). find_bond x.staking.ubds p) same,
      );
}

ledger-IsPool : IsPool ledger (λ d. d.0) (λ d. d.1) (λ c. c)
ledger-IsPool = record {
  rewards = λ d a c e. sym (ok_injective e);
  pooled = λ d c e. sym (ok_injective e);
  added = λ b c. refl;
  pool_set =
      λ c d d' a e. let same = sym (ok_injective e) in (ap (λ x. x.0) same, ap (λ x. x.1 a) same);
  created =
      λ h a b d d' e. let same = sym (ok_injective e) in (ap (λ x. x.0) same, ap (λ x. x.1 b) same);
}

-- Both operators are owed seven, the pool has three.
abbrev funds : Funds
funds = (3, λ (a : Address). 7)

abbrev bonded : Unbonding
bonded = record { parties = 5 ∷ []; entries = record { creation_height = 8; other = 1 } ∷ [] }

abbrev active : SigningInfo
active = record { start_height = 6; other = [] }

abbrev before_export : State Funds Bonds Infos
before_export = record {
  distr = funds;
  staking = record { reds = bonded ∷ []; ubds = [] };
  slashing = (9 ∷ [], active) ∷ [];
}

state_of : Run (State Funds Bonds Infos) → State Funds Bonds Infos
state_of (done s) = s
state_of Run.panics = before_export

abbrev after_export : State Funds Bonds Infos
after_export = state_of (prep_for_zero_height_genesis ledger 41 [] before_export)

prepared : prep_for_zero_height_genesis ledger 41 [] before_export ≡ done after_export
unfolding prep_for_zero_height_genesis check_allowed prepare_distribution withdraw_commission_of
    withdraw_rewards_of reinitialize_validator reinitialize_delegation prepare_staking
    reset_redelegation reset_unbonding reset_stored prepare_slashing reset_infos each state_of
    reset_entries bytes_equal
prepared = refl

prep-AtZero_example : AtZero (reset_entries bonded)
unfolding prep_for_zero_height_genesis check_allowed prepare_distribution withdraw_commission_of
    withdraw_rewards_of reinitialize_validator reinitialize_delegation prepare_staking
    reset_redelegation reset_unbonding reset_stored prepare_slashing reset_infos each state_of
    reset_entries bytes_equal find_bond
prep-AtZero_example =
    prep-AtZero ledger (λ k p. find_bond k.reds p) (λ k p. find_bond k.ubds p)
      ledger-IsUnbondingStore 41 [] before_export after_export (5 ∷ []) (reset_entries bonded)
      prepared (inl refl)

abbrev after_loop : Funds
after_loop = (
  17,
  λ (a : Address). if bytes_equal (2 ∷ []) a then 0 else if bytes_equal (1 ∷ []) a then 0 else 7,
)

pool-reinitialize_validator_example :
    (after_loop.0
      ≡ funds.0
        + owed_to ledger
            (λ d. d.0)
            (λ d. d.1)
            (λ c. c)
            ledger-IsPool
            ((1 ∷ []) ∷ (2 ∷ []) ∷ [])
            funds)
    × (after_loop.1 (2 ∷ []) ≡ (
        if operates ledger
          (λ d. d.0)
          (λ d. d.1)
          (λ c. c)
          ledger-IsPool
          ((1 ∷ []) ∷ (2 ∷ []) ∷ [])
          (2 ∷ [])
        then 0
        else funds.1 (2 ∷ [])))
unfolding each reinitialize_validator bytes_equal
pool-reinitialize_validator_example =
    pool-reinitialize_validator ledger (λ d. d.0) (λ d. d.1) (λ c. c) ledger-IsPool 0
      ((1 ∷ []) ∷ (2 ∷ []) ∷ []) funds after_loop (2 ∷ []) refl refl
