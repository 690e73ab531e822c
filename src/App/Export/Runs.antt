-- ===== src/App/Export/Runs.antt =====
-- The theorems of the export at a small chain: two validators, addresses that are their own texts.
use tatcoin.Base.{
  ℕ, ◌+◌, ◌==◌, ◌≡◌, ◌≢◌, refl, ap, sym, ◌∙◌, inl, inr, none, some, List, [], ◌∷◌, true, false, not,
  ◌&&◌, ◌||◌, ltb, if◌then◌else◌, Bool-cases,
}
use tatcoin.Keeper.Sdk.{Outcome, ok, err}
use tatcoin.Keeper.Server.{bytes_equal}
use tatcoin.Keeper.Updates.{bytes_equal_iff}
use tatcoin.App.Run.{done, each}
use tatcoin.App.Export.Sdk.{Text, Address, Validator, State, Sdk}
use tatcoin.App.Export.Defs.{is_allowed, reset_stored, prep_for_zero_height_genesis}
use tatcoin.App.Export.Exported.{
  ExportedApp, Exported, exported, Exporter, App, export_app_state_and_validators, app_export,
  minus_one,
}
use tatcoin.App.Export.Validators.{IsValidatorStore, visited, reset_stored-visited}
use tatcoin.App.Export.Height.{IsExportOf, export-IsExportOf}
use tatcoin.App.Export.Command.{app_export-ok}

-- The error of the small chain.
data Fault : Type 0 where
  absent bad_text : Fault

-- A store of validators is a list of them, the last write first.
abbrev Store : Type 0
Store = List Validator

find : Store → Address → Outcome Fault Validator
find [] a = err absent
find (v ∷ vs) a = if bytes_equal v.operator_address a then ok v else find vs a

abbrev read_text : Text → Outcome Fault Address
read_text [] = err bad_text
read_text (x ∷ xs) = ok (x ∷ xs)

abbrev alice : Text
alice = 1 ∷ []

abbrev bob : Text
bob = 2 ∷ []

abbrev small_sdk : Sdk Fault (Unit {0}) Store (Unit {0}) ℕ
small_sdk = record {
  validator_to_bytes = read_text;
  validator_to_text = λ a. ok a;
  account_to_bytes = read_text;
  operators = λ k. ok (alice ∷ bob ∷ []);
  delegations = λ k. ok [];
  withdraw_commission = λ h a d. d;
  withdraw_rewards = λ h a b d. d;
  delete_slash_events = λ d. d;
  delete_historical_rewards = λ d. d;
  outstanding_rewards = λ d a. ok 0;
  community_pool = λ d. ok 0;
  set_community_pool = λ c d. ok d;
  add_coins = λ a b. a + b;
  after_validator_created = λ h a d. ok d;
  before_delegation_created = λ h a b d. ok d;
  after_delegation_modified = λ h a b d. ok d;
  redelegations = λ k. ok [];
  set_redelegation = λ u k. ok k;
  unbonding_delegations = λ k. ok [];
  set_unbonding_delegation = λ u k. ok k;
  stored_addresses = λ k. bob ∷ alice ∷ [];
  close_iterator = λ k. none;
  get_validator = find;
  set_validator = λ v k. ok (v ∷ k);
  apply_updates = λ h s. ok s;
  signing_infos = λ l. ok [];
  set_signing_info = λ a i l. (l, none);
}

small_sdk-IsValidatorStore : IsValidatorStore small_sdk
unfolding find
small_sdk-IsValidatorStore = record {
  keyed = keyed;
  texts = λ a b t e e'. cc;
  stored = stored;
  others = others;
}
  where
    keyed :
        (k : Store) (a : Address) (v : Validator)
        → find k a ≡ ok v
        → ◌≡◌ {A = Outcome Fault Text} (ok a) (ok v.operator_address)
    keyed [] a v e = cc
    keyed (x ∷ k) a v e = elim (Bool-cases (bytes_equal x.operator_address a)) [
      | inl same ↦
          let here : x.operator_address ≡ a = (bytes_equal_iff x.operator_address a).0 same in
          let found : ◌≡◌ {A = Outcome Fault Validator} (ok x) (ok v) = rw same at e in
          let same_one : x ≡ v = cc in
          let same_name : x.operator_address ≡ v.operator_address =
            ap (λ y. y.operator_address) same_one in
          ap ok (sym here ∙ same_name)
      | inr other ↦ keyed k a v (rw other at e)
    ]

    stored :
        (k k' : Store) (a : Address) (v : Validator)
        → ◌≡◌ {A = Outcome Fault Store} (ok (v ∷ k)) (ok k')
        → ◌≡◌ {A = Outcome Fault Text} (ok a) (ok v.operator_address)
        → find k' a ≡ ok v
    stored k k' a v e e' =
        let after : ◌≡◌ {A = Store} (v ∷ k) k' = cc in
        let name : v.operator_address ≡ a = cc in
        rw (← after, (bytes_equal_iff v.operator_address a).1 name) refl

    others :
        (k k' : Store) (a : Address) (v : Validator)
        → ◌≡◌ {A = Outcome Fault Store} (ok (v ∷ k)) (ok k')
        → ◌≢◌ {A = Outcome Fault Text} (ok a) (ok v.operator_address)
        → find k' a ≡ find k a
    others k k' a v e e' =
        let after : ◌≡◌ {A = Store} (v ∷ k) k' = cc in
        elim (Bool-cases (bytes_equal v.operator_address a)) [
          | inl same ↦ absurd (e' (ap ok (sym ((bytes_equal_iff v.operator_address a).0 same))))
          | inr other ↦ rw (← after, other) refl
        ]

abbrev alice_validator : Validator
alice_validator = record {
  operator_address = alice;
  unbonding_height = 9;
  jailed = false;
  other = [];
}

abbrev bob_validator : Validator
bob_validator = record { operator_address = bob; unbonding_height = 0; jailed = false; other = [] }

abbrev two_validators : Store
two_validators = alice_validator ∷ bob_validator ∷ []

-- Alice may stay unjailed.
abbrev allow_alice : List Text
allow_alice = alice ∷ []

abbrev two_reset : Store
two_reset =
    record alice_validator { unbonding_height = 0 }
    ∷ record bob_validator { jailed = true }
    ∷ two_validators

reset_stored-visited_example :
    (w : Validator) × (find two_reset bob ≡ ok w)
    × (w.unbonding_height ≡ 0)
    × (w.jailed ≡ (false || (ltb 0 1 && not (is_allowed allow_alice bob))))
    × (w.operator_address ≡ bob)
    × (w.other ≡ [])
unfolding each reset_stored find visited is_allowed bytes_equal
reset_stored-visited_example =
    reset_stored-visited small_sdk small_sdk-IsValidatorStore allow_alice two_validators two_reset
      refl bob bob_validator refl refl

abbrev small_state : State (Unit {0}) Store (Unit {0})
small_state = record { distr = tt; staking = two_validators; slashing = tt }

abbrev small_exporter : Exporter Fault (State (Unit {0}) Store (Unit {0})) Store Store Store ℕ
small_exporter = record {
  export_genesis = λ s modules. ok s.staking;
  marshal_indent = λ g. ok g;
  write_validators = λ s. (s.staking, none);
  get_consensus_params = λ s. 5;
}

abbrev small_app : App (State (Unit {0}) Store (Unit {0}))
small_app = record { state = small_state; last_block_height = 41 }

abbrev small_export : ExportedApp Store Store ℕ
small_export = record {
  app_state = two_reset;
  validators = two_reset;
  height = 0;
  consensus_params = 5;
}

export-IsExportOf_example :
    (s : State (Unit {0}) Store (Unit {0})) × (prep_for_zero_height_genesis small_sdk 41 allow_alice
        small_state
      ≡ done s)
    × IsExportOf small_exporter [] 0 s small_export none
unfolding export_app_state_and_validators prep_for_zero_height_genesis each find bytes_equal
export-IsExportOf_example =
    export-IsExportOf small_sdk small_exporter small_app true allow_alice [] small_export none refl

abbrev load_small :
    ℕ
    → App (State (Unit {0}) Store (Unit {0}))
    → Outcome Fault (App (State (Unit {0}) Store (Unit {0})))
load_small height app = ok (record app { last_block_height = height })

abbrev small_live : Exported Fault Store Store ℕ
small_live =
    exported
      (record {
        app_state = two_validators;
        validators = two_validators;
        height = 8;
        consensus_params = 5;
      })
      none

app_export-ok_example :
    (c : ℕ) × (rest : Text) × (some (47 ∷ []) ≡ some (c ∷ rest))
    × (true ≡ true)
    × (app : App (State (Unit {0}) Store (Unit {0}))) × ((if 7 == minus_one
          then ok small_app
          else load_small 7 small_app)
        ≡ ok app)
    × (export_app_state_and_validators small_sdk small_exporter app false [] [] ≡ done small_live)
unfolding app_export export_app_state_and_validators
app_export-ok_example =
    app_export-ok small_sdk small_exporter (λ latest. small_app) load_small (some (47 ∷ [])) true 7
      false [] [] small_live refl
