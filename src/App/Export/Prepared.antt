-- ===== src/App/Export/Prepared.antt =====
-- What `prepForZeroHeightGenesis` leaves of the heights, as a whole.
use tatcoin.Base.{ℕ, ◌≡◌, sym, ap, ◌∙◌, ◌⊎◌, inl, inr, Option, none, some, List, ◌∷◌, map, true}
use tatcoin.App.Run.{Run, done, >>=-eq-done}
use tatcoin.App.Export.Sdk.{Text, Address, Unbonding, SigningInfo, State, Sdk}
use tatcoin.App.Export.Defs.{must, prepare_slashing, prep_for_zero_height_genesis}
use tatcoin.App.Export.Validators.{visited, must-done}
use tatcoin.App.Export.ZeroHeight.{
  AtZero, IsUnbondingStore, IsInfoStore, prep-Parts, prepare_staking-Zero,
}

done-injective : {A : Type 0} {a b : A} → done a ≡ done b → a ≡ b
done-injective {a = a} h = cc

module _ {E D K L Coins : Type 0} (sdk : Sdk E D K L Coins) where
  module _ (red ubd : K → Text → Option Unbonding) (law : IsUnbondingStore sdk red ubd) where
    -- Once the preparation is done, every entry of every redelegation and of every unbonding delegation
    -- in the store of staking has creation height 0.
    pub prep-AtZero :
        (height : ℕ) (allowed : List Text) (s s' : State D K L) (p : Text) (u : Unbonding)
        → prep_for_zero_height_genesis sdk height allowed s ≡ done s'
        → (red s'.staking p ≡ some u) ⊎ (ubd s'.staking p ≡ some u)
        → AtZero u
    unfolding prepare_slashing
    prep-AtZero height allowed s s' p u e found =
        let (d, k, staked, rest) = prep-Parts sdk height allowed s s' e in
        let (zero, zero') = prepare_staking-Zero sdk red ubd law allowed s.staking k staked in
        let (reds, ubds) = last (sdk.close_iterator k) d k rest in
        elim found [ inl r ↦ zero p u (sym reds ∙ r) | inr r ↦ zero' p u (sym ubds ∙ r) ]
      where
        last :
            (o : Option E) (d : D) (k : K)
            → elim o as (λ x. Run (State D K L)) [
              | some e ↦ done (record s { distr = d; staking = k })
              | none ↦ prepare_slashing sdk height (record s { distr = d; staking = k })
            ]
              ≡ done s'
            → (red s'.staking p ≡ red k p) × (ubd s'.staking p ≡ ubd k p)
        last (some x) d k h =
            let same = done-injective h in
            (ap (λ y. red y.staking p) (sym same), ap (λ y. ubd y.staking p) (sym same))
        last none d k h =
            let before : State D K L = record s { distr = d; staking = k } in
            let (t, g0, h0) = >>=-eq-done (must (sdk.apply_updates height before)) _ h in
            let (infos, g1, h1) = >>=-eq-done (must (sdk.signing_infos t.slashing)) _ h0 in
            let same = done-injective h1 in
            let (kept, kept') = law.updates_kept height before t p (must-done _ t g0) in
            (
              ap (λ y. red y.staking p) (sym same) ∙ kept,
              ap (λ y. ubd y.staking p) (sym same) ∙ kept',
            )

  module _ (info : L → Address → Option SigningInfo) (law : IsInfoStore sdk info) where
    abbrev pub zeroed : SigningInfo → SigningInfo
    zeroed x = record x { start_height = 0 }

    -- In the loop over the infos from the store `l`, a write for this address was refused.
    pub data Refused : List (Address × SigningInfo) → L → Address → Type 0 where
      refused_here :
          {a : Address} {x : SigningInfo} {xs : List (Address × SigningInfo)} {l : L} {e : E}
          → (sdk.set_signing_info a (zeroed x) l).1 ≡ some e
          → Refused ((a, x) ∷ xs) l a
      refused_later :
          {a b : Address} {x : SigningInfo} {xs : List (Address × SigningInfo)} {l : L}
          → Refused xs (sdk.set_signing_info b (zeroed x) l).0 a
          → Refused ((b, x) ∷ xs) l a

    abbrev Pending : List (Address × SigningInfo) → L → Address → Type 0
    Pending xs l a =
        (j : SigningInfo)
        → info l a ≡ some j
        → (j.start_height ≡ 0) ⊎ (visited (map (λ x. x.0) xs) a ≡ true)
