-- ===== src/Cmd/InPlace/Steps.antt =====
-- The steps of the in-place testnet that a run which went on has made.
use tatcoin.Base.{◌≡◌, refl, sym, ap, ◌∙◌, ℕ}
use tatcoin.Keeper.Sdk.{Outcome, ok, err}
use tatcoin.Cmd.Flags.{Text}
use tatcoin.Cmd.InPlace.Sdk.{Bytes, Stores, Sdk}
use tatcoin.Cmd.InPlace.Args.{ValArgs}
use tatcoin.Cmd.InPlace.Init.{
  Exec, ran, exits, panics, ◌>>=◌, handle_err, funded, new_validator, remove_validators,
  add_validator, set_distribution, fund_accounts, signing_info, init_app_for_testnet,
}

-- What a run that went on did first, and what it did then.
pub >>=-eq-ran :
    {X Y : Type 0} (r : Exec X) (next : X → Exec Y) {out : Y}
    → (r >>= next) ≡ ran out
    → (x : X) × (r ≡ ran x) × (next x ≡ ran out)
>>=-eq-ran exits next whole = cc
>>=-eq-ran panics next whole = cc
>>=-eq-ran (ran x) next whole = (x, refl, whole)

pub ran-injective : {A : Type 0} {a b : A} → ran a ≡ ran b → a ≡ b
ran-injective {a = a} e = cc

pub handle_err-ran : {E A : Type 0} (r : Outcome E A) (a : A) → handle_err r ≡ ran a → r ≡ ok a
handle_err-ran (ok x) a e = ap ok (ran-injective e)
handle_err-ran (err x) a e = cc

module _ {E K D L B Any Decimal Coins : Type 0} (sdk : Sdk E K D L B Any Decimal Coins)
    (last_height : ℕ) (args : ValArgs) (s s' : Stores K D L B) where
  -- The parts of a run: the new key and address, the store without validators, the store of slashing
  -- before the signing info, and the bond denomination.
  abbrev pub Parts : Type 0
  Parts =
      (key : Any) × (address : Bytes) × (k : K) × (l : L) × (denom : Text) × (sdk.new_any
          args.new_val_pub_key
        ≡ ok key)
      × (sdk.validator_to_bytes args.new_operator_address ≡ ok address)
      × (remove_validators sdk s.staking ≡ ran k)
      × (add_validator sdk (new_validator sdk args.new_operator_address key) address k
          ≡ ran s'.staking)
      × ((sdk.set_signing_info args.new_val_addr (signing_info sdk args.new_val_addr last_height)
            l).0
          ≡ s'.slashing)
      × (sdk.bond_denom s'.staking ≡ ok denom)
      × (fund_accounts sdk (sdk.new_coins denom funded) args.accounts_to_fund s.bank ≡ ran s'.bank)

  pub init_app_for_testnet-Parts : init_app_for_testnet sdk last_height args s ≡ ran s' → Parts
  unfolding init_app_for_testnet
  init_app_for_testnet-Parts e =
      let (key, e1, r1) = >>=-eq-ran (handle_err (sdk.new_any args.new_val_pub_key)) _ e in
      let (address, e2, r2) =
        >>=-eq-ran (handle_err (sdk.validator_to_bytes args.new_operator_address)) _ r1 in
      let (k, e3, r3) = >>=-eq-ran (remove_validators sdk s.staking) _ r2 in
      let (k', e4, r4) =
        >>=-eq-ran (add_validator sdk (new_validator sdk args.new_operator_address key) address k) _
          r3 in
      let ((d, l), e5, r5) =
        >>=-eq-ran (handle_err (sdk.after_validator_created address k' (s.distr, s.slashing))) _
          r4 in
      let (d', e6, r6) = >>=-eq-ran (set_distribution sdk address d) _ r5 in
      let (denom, e7, r7) = >>=-eq-ran (handle_err (sdk.bond_denom k')) _ r6 in
      let (bank, e8, r8) =
        >>=-eq-ran (fund_accounts sdk (sdk.new_coins denom funded) args.accounts_to_fund s.bank) _
          r7 in
      let same = ran-injective r8 in
      let store : k' ≡ s'.staking = ap (λ x. x.staking) same in
      let balances : bank ≡ s'.bank = ap (λ x. x.bank) same in
      (
        key,
        address,
        k,
        l,
        denom,
        handle_err-ran _ key e1,
        handle_err-ran _ address e2,
        e3,
        e4 ∙ ap ran store,
        ap (λ x. x.slashing) same,
        sym (ap sdk.bond_denom store) ∙ handle_err-ran _ denom e7,
        e8 ∙ ap ran balances,
      )
