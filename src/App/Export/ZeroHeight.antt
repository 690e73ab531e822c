-- ===== src/App/Export/ZeroHeight.antt =====
-- Heights after `prepForZeroHeightGenesis`: redelegations, unbonding delegations and signing infos.
use tatcoin.Base.{
  ℕ, ◌≡◌, refl, sym, ◌∙◌, inr, Option, none, some, List, [], ◌∷◌, map, true, if◌then◌else◌,
}
use tatcoin.Keeper.Sdk.{ok}
use tatcoin.Keeper.Server.{bytes_equal}
use tatcoin.App.Run.{Run, done, each, each-keeps, >>=-eq-done}
use tatcoin.App.Export.Sdk.{Text, Address, Entry, Unbonding, SigningInfo, State, Sdk}
use tatcoin.App.Export.Defs.{
  must, reset_entry, reset_entries, reset_redelegation, reset_unbonding, reset_stored,
  check_allowed, prepare_distribution, prepare_staking, prepare_slashing,
  prep_for_zero_height_genesis,
}
use tatcoin.App.Export.Validators.{visited, must-done}
use tatcoin.App.Export.Resets.{each-reset}

-- Every entry was created at height 0.
abbrev pub AllZero : List Entry → Type 0
AllZero [] = Unit {0}
AllZero (e ∷ es) = (e.creation_height ≡ 0) × AllZero es

abbrev pub AtZero : Unbonding → Type 0
AtZero u = AllZero u.entries

reset_entries-AtZero : (u : Unbonding) → AtZero (reset_entries u)
unfolding reset_entries
reset_entries-AtZero u = all u.entries
  where
    all : (es : List Entry) → AllZero (map reset_entry es)
    all [] = tt
    all (e ∷ es) = (refl, all es)

reset_entries-parties : (u : Unbonding) → (reset_entries u).parties ≡ u.parties
unfolding reset_entries
reset_entries-parties u = refl

-- What the SDK documents of the store of staking, by the redelegation and the unbonding delegation of
-- two parties: an iteration visits all that there are; a write is read back under its parties and under
-- no others, and neither it nor the writes of validators change what else there is.
pub record IsUnbondingStore {E D K L Coins : Type 0} (sdk : Sdk E D K L Coins)
    (red ubd : K → Text → Option Unbonding) : Type 0 where
  pub red_listed :
      (k : K) (us : List Unbonding) (p : Text) (u : Unbonding)
      → sdk.redelegations k ≡ ok us
      → red k p ≡ some u
      → visited (map (λ x. x.parties) us) p ≡ true
  pub red_set :
      (u : Unbonding) (k k' : K) (p : Text)
      → sdk.set_redelegation u k ≡ ok k'
      → red k' p ≡ (if bytes_equal u.parties p then some u else red k p)
  pub ubd_listed :
      (k : K) (us : List Unbonding) (p : Text) (u : Unbonding)
      → sdk.unbonding_delegations k ≡ ok us
      → ubd k p ≡ some u
      → visited (map (λ x. x.parties) us) p ≡ true
  pub ubd_set :
      (u : Unbonding) (k k' : K) (p : Text)
      → sdk.set_unbonding_delegation u k ≡ ok k'
      → ubd k' p ≡ (if bytes_equal u.parties p then some u else ubd k p)
  pub red_kept :
      (u : Unbonding) (k k' : K) (p : Text)
      → sdk.set_unbonding_delegation u k ≡ ok k'
      → red k' p ≡ red k p
  pub validator_kept :
      (v : _) (k k' : K) (p : Text)
      → sdk.set_validator v k ≡ ok k'
      → (red k' p ≡ red k p) × (ubd k' p ≡ ubd k p)
  pub updates_kept :
      (h : ℕ) (s s' : State D K L) (p : Text)
      → sdk.apply_updates h s ≡ ok s'
      → (red s'.staking p ≡ red s.staking p) × (ubd s'.staking p ≡ ubd s.staking p)

-- What it documents of the store of signing infos: an iteration visits all that there are; a write
-- without an error is read back at its address and nowhere else, and one with an error changes nothing.
pub record IsInfoStore {E D K L Coins : Type 0} (sdk : Sdk E D K L Coins)
    (info : L → Address → Option SigningInfo) : Type 0 where
  pub info_listed :
      (l : L) (xs : List (Address × SigningInfo)) (a : Address) (i : SigningInfo)
      → sdk.signing_infos l ≡ ok xs
      → info l a ≡ some i
      → visited (map (λ x. x.0) xs) a ≡ true
  pub info_set :
      (a b : Address) (i : SigningInfo) (l : L)
      → (sdk.set_signing_info a i l).1 ≡ none
      → info (sdk.set_signing_info a i l).0 b ≡ (if bytes_equal a b then some i else info l b)
  pub info_kept :
      (a b : Address) (i : SigningInfo) (l : L) (e : E)
      → (sdk.set_signing_info a i l).1 ≡ some e
      → info (sdk.set_signing_info a i l).0 b ≡ info l b

module _ {E D K L Coins : Type 0} (sdk : Sdk E D K L Coins) where
  -- The steps of a preparation that was done.
  abbrev pub Parts : ℕ → List Text → State D K L → State D K L → Type 0
  Parts height allowed s s' =
      (d : D) × (k : K) × (prepare_staking sdk allowed s.staking ≡ done k)
      × (elim (sdk.close_iterator k) as (λ x. Run (State D K L)) [
        | some e ↦ done (record s { distr = d; staking = k })
        | none ↦ prepare_slashing sdk height (record s { distr = d; staking = k })
      ]
          ≡ done s')

  pub prep-Parts :
      (height : ℕ) (allowed : List Text) (s s' : State D K L)
      → prep_for_zero_height_genesis sdk height allowed s ≡ done s'
      → Parts height allowed s s'
  unfolding prep_for_zero_height_genesis
  prep-Parts height allowed s s' e =
      let (u, e0, f0) = >>=-eq-done (check_allowed sdk allowed) _ e in
      let (d, e1, f1) = >>=-eq-done (prepare_distribution sdk height s.staking s.distr) _ f0 in
      let (k, e2, f2) = >>=-eq-done (prepare_staking sdk allowed s.staking) _ f1 in (d, k, e2, f2)

  module _ (red ubd : K → Text → Option Unbonding) (law : IsUnbondingStore sdk red ubd) where
    abbrev pub Zero : (K → Text → Option Unbonding) → K → Type 0
    Zero read k = (p : Text) (u : Unbonding) → read k p ≡ some u → AtZero u

    Zero-kept :
        (read : K → Text → Option Unbonding) (k k' : K)
        → ((p : Text) → read k' p ≡ read k p)
        → Zero read k
        → Zero read k'
    Zero-kept read k k' same zero p u found = zero p u (sym (same p) ∙ found)

    pub prepare_staking-Zero :
        (allowed : List Text) (k0 k3 : K)
        → prepare_staking sdk allowed k0 ≡ done k3
        → Zero red k3 × Zero ubd k3
    unfolding prepare_staking reset_redelegation reset_unbonding reset_stored
    prepare_staking-Zero allowed k0 k3 e =
        let (reds, e0, f0) = >>=-eq-done (must (sdk.redelegations k0)) _ e in
        let (k1, e1, f1) = >>=-eq-done (each (reset_redelegation sdk) reds k0) _ f0 in
        let (ubds, e2, f2) = >>=-eq-done (must (sdk.unbonding_delegations k1)) _ f1 in
        let (k2, e3, f3) = >>=-eq-done (each (reset_unbonding sdk) ubds k1) _ f2 in
        let red1 : Zero red k1 =
          each-reset sdk.set_redelegation (λ x. x.parties) reset_entries red law.red_set
            reset_entries-parties AtZero reset_entries-AtZero reds k0 k1 e1
            (λ p u found. inr (law.red_listed k0 reds p u (must-done _ reds e0) found)) in
        let ubd2 : Zero ubd k2 =
          each-reset sdk.set_unbonding_delegation (λ x. x.parties) reset_entries ubd law.ubd_set
            reset_entries-parties AtZero reset_entries-AtZero ubds k1 k2 e3
            (λ p u found. inr (law.ubd_listed k1 ubds p u (must-done _ ubds e2) found)) in
        let red2 : Zero red k2 =
          each-keeps (Zero red) (reset_unbonding sdk)
            (λ x k k' step. Zero-kept red k k' (λ p. law.red_kept _ k k' p (must-done _ k' step)))
            ubds k1 k2 e3 red1 in
        each-keeps (λ k. Zero red k × Zero ubd k) (reset_stored sdk allowed)
          (λ a k k' step zero. stored a k k' step zero) (sdk.stored_addresses k2) k2 k3 f3
          (red2, ubd2)
      where
        stored :
            (a : Address) (k k' : K)
            → reset_stored sdk allowed a k ≡ done k'
            → Zero red k × Zero ubd k
            → Zero red k' × Zero ubd k'
        stored a k k' step (zero, zero') =
            let (v, g0, h0) = >>=-eq-done (must (sdk.get_validator k a)) _ step in
            let (t, g1, h1) = >>=-eq-done (must (sdk.validator_to_text a)) _ h0 in
            let write = must-done _ k' h1 in
            (
              Zero-kept red k k' (λ p. (law.validator_kept _ k k' p write).0) zero,
              Zero-kept ubd k k' (λ p. (law.validator_kept _ k k' p write).1) zero',
            )
