-- ===== src/Cmd/InPlace/Store.antt =====
-- The store of staking after the in-place testnet, key by key.
use tatcoin.Base.{◌≡◌, List, Bool, not, ◌&&◌, ◌||◌, ℕ}
use tatcoin.Keeper.Sdk.{ok}
use tatcoin.Keeper.Server.{bytes_equal}
use tatcoin.App.Export.Validators.{visited}
use tatcoin.Cmd.InPlace.Sdk.{Bytes, Validator, Sdk}

-- The kinds of keys of the store of staking, and the keys of a validator.
pub record Keys (Any Decimal : Type 0) : Type 0 where
  pub is_power : Bytes → Bool
  pub is_last : Bytes → Bool
  pub is_validator : Bytes → Bool
  pub is_queue : Bytes → Bool
  pub validator_key : Validator Any Decimal → Bytes
  pub cons_key : Validator Any Decimal → Bytes
  pub power_key : Validator Any Decimal → Bytes
  pub last_key : Bytes → Bytes

-- What the SDK documents of the store of staking, where `has` says which keys it has: `Delete` takes
-- one key away; an iterator visits the keys of its kind; a write of a validator adds its key.
pub record IsKeyStore {E K D L B Any Decimal Coins : Type 0} (sdk : Sdk E K D L B Any Decimal Coins)
    (keys : Keys Any Decimal) (has : K → Bytes → Bool) : Type 0 where
  pub deleted : (k : K) (a b : Bytes) → has (sdk.delete a k) b ≡ has k b && not (bytes_equal a b)
  pub power :
      (k : K) (found : List Bytes) (b : Bytes)
      → sdk.power_keys k ≡ ok found
      → visited found b ≡ keys.is_power b && has k b
  pub last :
      (k : K) (found : List Bytes) (b : Bytes)
      → sdk.last_keys k ≡ ok found
      → visited found b ≡ keys.is_last b && has k b
  pub validators :
      (k : K) (b : Bytes)
      → visited (sdk.prefix_keys sdk.validators_key k) b ≡ keys.is_validator b && has k b
  pub queue :
      (k : K) (b : Bytes)
      → visited (sdk.prefix_keys sdk.validator_queue_key k) b ≡ keys.is_queue b && has k b
  pub set_validator :
      (k k' : K) (v : Validator Any Decimal) (b : Bytes)
      → sdk.set_validator v k ≡ ok k'
      → has k' b ≡ has k b || bytes_equal (keys.validator_key v) b
  pub set_cons :
      (k k' : K) (v : Validator Any Decimal) (b : Bytes)
      → sdk.set_validator_by_cons_addr v k ≡ ok k'
      → has k' b ≡ has k b || bytes_equal (keys.cons_key v) b
  pub set_power :
      (k k' : K) (v : Validator Any Decimal) (b : Bytes)
      → sdk.set_validator_by_power_index v k ≡ ok k'
      → has k' b ≡ has k b || bytes_equal (keys.power_key v) b
  pub set_last :
      (k k' : K) (address : Bytes) (power : ℕ) (b : Bytes)
      → sdk.set_last_validator_power address power k ≡ ok k'
      → has k' b ≡ has k b || bytes_equal (keys.last_key address) b

module _ {Any Decimal : Type 0} (keys : Keys Any Decimal) where
  -- A key of one of the four indexes of validators.
  abbrev pub is_indexed : Bytes → Bool
  is_indexed b = ((keys.is_power b || keys.is_last b) || keys.is_validator b) || keys.is_queue b

  -- A key that the new validator has.
  abbrev pub is_new : Validator Any Decimal → Bytes → Bytes → Bool
  is_new v address b =
      ((bytes_equal (keys.validator_key v) b || bytes_equal (keys.cons_key v) b)
        || bytes_equal (keys.power_key v) b)
      || bytes_equal (keys.last_key address) b
