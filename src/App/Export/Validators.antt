-- ===== src/App/Export/Validators.antt =====
-- What the loop over the validators' store leaves of each validator.
use tatcoin.Base.{
  ◌≡◌, ◌≢◌, refl, ap, inl, inr, List, [], ◌∷◌, Bool, true, false, not, ◌&&◌, ◌||◌, ltb,
  if◌then◌else◌, Bool-cases, length, arith,
}
use tatcoin.Keeper.Sdk.{Outcome, ok, err}
use tatcoin.Keeper.Server.{bytes_equal}
use tatcoin.Keeper.Updates.{bytes_equal_iff}
use tatcoin.App.Run.{each-nil, each-cons, >>=-eq-done, Run, done, panics, each}
use tatcoin.App.Export.Sdk.{Text, Address, Validator, Sdk}
use tatcoin.App.Export.Defs.{must, is_allowed, reset_validator, reset_stored}

-- What the SDK documents of the store of validators: a validator is kept under the address that its
-- operator's text stands for, two addresses have two texts, a write is read back under that address
-- and is not seen under any other.
pub record IsValidatorStore {E D K L Coins : Type 0} (sdk : Sdk E D K L Coins) : Type 0 where
  pub keyed :
      (k : K) (a : Address) (v : Validator)
      → sdk.get_validator k a ≡ ok v
      → sdk.validator_to_text a ≡ ok v.operator_address
  pub texts :
      (a b : Address) (t : Text)
      → sdk.validator_to_text a ≡ ok t
      → sdk.validator_to_text b ≡ ok t
      → a ≡ b
  pub stored :
      (k k' : K) (a : Address) (v : Validator)
      → sdk.set_validator v k ≡ ok k'
      → sdk.validator_to_text a ≡ ok v.operator_address
      → sdk.get_validator k' a ≡ ok v
  pub others :
      (k k' : K) (a : Address) (v : Validator)
      → sdk.set_validator v k ≡ ok k'
      → sdk.validator_to_text a ≢ ok v.operator_address
      → sdk.get_validator k' a ≡ sdk.get_validator k a

-- The address is one of those that the loop visits.
unfoldable pub visited : List Address → Address → Bool
visited [] b = false
visited (x ∷ xs) b = bytes_equal x b || visited xs b

-- A validator after the loop, if there was one before.
abbrev pub reset_outcome :
    {E : Type 0} → List Text → Text → Outcome E Validator → Outcome E Validator
reset_outcome allowed text (ok v) = ok (reset_validator allowed text v)
reset_outcome allowed text (err e) = err e

reset_twice :
    (allowed : List Text) (text : Text) (v : Validator)
    → reset_validator allowed text (reset_validator allowed text v) ≡ reset_validator allowed text v
unfolding reset_validator
reset_twice allowed text v = ground arith

reset_outcome_twice :
    {E : Type 0} (allowed : List Text) (text : Text) (r : Outcome E Validator)
    → reset_outcome allowed text (reset_outcome allowed text r) ≡ reset_outcome allowed text r
reset_outcome_twice allowed text (ok v) = ap ok (reset_twice allowed text v)
reset_outcome_twice allowed text (err e) = refl

pub must-done : {E A : Type 0} (r : Outcome E A) (a : A) → must r ≡ done a → r ≡ ok a
must-done {E} {A} (ok x) a e = ap ok (ap value e)
  where
    value : Run A → A
    value (done y) = y
    value panics = x
must-done (err x) a e = cc

-- Two rounds, each of which may apply one idempotent function.
either :
    {A : Type 0} (p q : Bool) (f : A → A)
    → ((x : A) → f (f x) ≡ f x)
    → (x : A) {y z : A} → y ≡ (if p then f x else x)
    → z ≡ (if q then f y else y)
    → z ≡ (if p || q then f x else x)
either true true f twice x here later = rw (later, here) (twice x)
either true false f twice x here later = rw (later, here) refl
either false true f twice x here later = rw (later, here) refl
either false false f twice x here later = rw (later, here) refl

module _ {E D K L Coins : Type 0} (sdk : Sdk E D K L Coins) (law : IsValidatorStore sdk)
    (allowed : List Text) (b : Address) (text : Text)
    (named : sdk.validator_to_text b ≡ ok text) where
  -- One round, as another address and as its own sees it.
  round :
      (x : Address) (k k' : K)
      → reset_stored sdk allowed x k ≡ done k'
      → sdk.get_validator k' b ≡ (
          if bytes_equal x b
          then reset_outcome allowed text (sdk.get_validator k b)
          else sdk.get_validator k b)
  unfolding reset_stored
  round x k k' e =
      let (v, got, e1) = >>=-eq-done (must (sdk.get_validator k x)) _ e in
      let (t, name, e2) = >>=-eq-done (must (sdk.validator_to_text x)) _ e1 in
      let write : sdk.set_validator (reset_validator allowed t v) k ≡ ok k' = must-done _ k' e2 in
      let key : sdk.validator_to_text x ≡ ok v.operator_address =
        law.keyed k x v (must-done _ v got) in
      elim (Bool-cases (bytes_equal x b)) [
        | inl same ↦
            let here : x ≡ b = (bytes_equal_iff x b).0 same in
            rw same (
              own v t here (must-done _ v got) (must-done _ t name) (law.stored k k' x _ write key))
        | inr other ↦
            let apart : sdk.validator_to_text b ≢ ok v.operator_address =
              λ p. cc ((bytes_equal_iff x b).1 (law.texts x b v.operator_address key p)) in
            rw other (law.others k k' b _ write apart)
      ]
    where
      own :
          (v : Validator) (t : Text)
          → x ≡ b
          → sdk.get_validator k x ≡ ok v
          → sdk.validator_to_text x ≡ ok t
          → sdk.get_validator k' x ≡ ok (reset_validator allowed t v)
          → sdk.get_validator k' b ≡ reset_outcome allowed text (sdk.get_validator k b)
      own v t here got name after = let t_text : t ≡ text = cc in rw (← here, got, after, t_text)

  -- All rounds.
  pub rounds :
      (xs : List Address) (k k' : K)
      → each (reset_stored sdk allowed) xs k ≡ done k'
      → sdk.get_validator k' b ≡ (
          if visited xs b
          then reset_outcome allowed text (sdk.get_validator k b)
          else sdk.get_validator k b)
  unfolding visited
  rounds [] k k' e = rw (← each-nil (reset_stored sdk allowed) k k' e) refl
  rounds (x ∷ xs) k k' e =
      let (t, first, rest) = each-cons (reset_stored sdk allowed) x xs k k' e in
      let here = round x k t first in
      let later = rounds xs t k' rest in
      either (bytes_equal x b) (visited xs b) (reset_outcome allowed text)
        (reset_outcome_twice allowed text) (sdk.get_validator k b) here later

-- In a lawful validator store, a loop over the stored addresses that does not panic leaves every
-- validator that it visits with unbonding height 0, jailed if it was or if a list of allowed
-- addresses is given and its operator is not in it, and otherwise as it was.
pub reset_stored-visited :
    {E D K L Coins : Type 0} (sdk : Sdk E D K L Coins)
    → IsValidatorStore sdk
    → (allowed : List Text) (k k' : K)
    → each (reset_stored sdk allowed) (sdk.stored_addresses k) k ≡ done k'
    → (b : Address) (v : Validator) → visited (sdk.stored_addresses k) b ≡ true
    → sdk.get_validator k b ≡ ok v
    → (w : Validator) × (sdk.get_validator k' b ≡ ok w)
      × (w.unbonding_height ≡ 0)
      × (w.jailed
          ≡ v.jailed || (ltb 0 (length allowed) && not (is_allowed allowed v.operator_address)))
      × (w.operator_address ≡ v.operator_address)
      × (w.other ≡ v.other)
unfolding reset_validator
reset_stored-visited sdk law allowed k k' e b v seen got =
    let after =
      rounds sdk law allowed b v.operator_address (law.keyed k b v got) (sdk.stored_addresses k) k
        k' e in
    (
      reset_validator allowed v.operator_address v,
      rw (after, seen, got) refl,
      refl,
      jailed,
      refl,
      refl,
    )
  where
    jailed :
        (if ltb 0 (length allowed) && not (is_allowed allowed v.operator_address)
          then true
          else v.jailed)
        ≡ v.jailed || (ltb 0 (length allowed) && not (is_allowed allowed v.operator_address))
    jailed = ground arith
