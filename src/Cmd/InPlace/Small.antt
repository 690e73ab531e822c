-- ===== src/Cmd/InPlace/Small.antt =====
-- A small chain for the in-place testnet: a key of the store of staking begins with its kind, 1 to 5
-- for power, last, validator, queue and consensus address; an address is its text.
use tatcoin.Base.{
  ℕ, ◌+◌, ◌-◌, ◌==◌, ◌≡◌, refl, sym, ap, ◌∙◌, inl, inr, none, List, [], ◌∷◌, Bool, true, false, not,
  ◌&&◌, ◌||◌, if◌then◌else◌, Bool-cases, arith,
}
use tatcoin.Keeper.Sdk.{Outcome, ok, err}
use tatcoin.Keeper.Server.{bytes_equal}
use tatcoin.Keeper.Updates.{bytes_equal_iff}
use tatcoin.App.Export.Validators.{visited}
use tatcoin.Cmd.Flags.{Text}
use tatcoin.Cmd.InPlace.Sdk.{Bytes, Sdk}
use tatcoin.Cmd.InPlace.Store.{Keys, IsKeyStore}
use tatcoin.Cmd.InPlace.Fund.{IsBank}

pub data Fault : Type 0 where
  empty_text blocked : Fault

abbrev pub of_kind : ℕ → Bytes → Bool
of_kind n [] = false
of_kind n (x ∷ xs) = x == n

unfoldable pub keep_kind : ℕ → List Bytes → List Bytes
keep_kind n [] = []
keep_kind n (a ∷ k) = if of_kind n a then a ∷ keep_kind n k else keep_kind n k

unfoldable pub remove : Bytes → List Bytes → List Bytes
remove a [] = []
remove a (b ∷ k) = if bytes_equal a b then remove a k else b ∷ remove a k

abbrev pub read_text : Text → Outcome Fault Bytes
read_text [] = err empty_text
read_text (x ∷ xs) = ok (x ∷ xs)

abbrev pub minter : Bytes
minter = 109 ∷ []

-- The supply and the balances.
abbrev pub Bank : Type 0
Bank = ℕ × (Bytes → ℕ)

abbrev pub mint : ℕ → Bank → Outcome Fault Bank
mint n (supply, f) = ok (supply + n, λ x. if bytes_equal minter x then f x + n else f x)

abbrev pub send : Bytes → ℕ → Bank → Outcome Fault Bank
send a n (supply, f) =
    if bytes_equal a minter
    then err blocked
    else ok (
      supply,
      λ x. if bytes_equal a x then f x + n else if bytes_equal minter x then f x - n else f x,
    )

abbrev pub small_sdk : Sdk Fault (List Bytes) ℕ ℕ Bank Bytes ℕ ℕ
small_sdk = record {
  new_any = λ key. ok key;
  decimal = λ s. 0;
  validator_to_bytes = read_text;
  account_to_bytes = read_text;
  cons_to_text = λ a. a;
  power_keys = λ k. ok (keep_kind 1 k);
  last_keys = λ k. ok (keep_kind 2 k);
  prefix_keys = λ p k. if bytes_equal p (3 ∷ []) then keep_kind 3 k else keep_kind 4 k;
  validators_key = 3 ∷ [];
  validator_queue_key = 4 ∷ [];
  delete = remove;
  set_validator = λ v k. ok ((3 ∷ v.operator_address) ∷ k);
  set_validator_by_cons_addr = λ v k. ok ((5 ∷ v.consensus_pubkey) ∷ k);
  set_validator_by_power_index = λ v k. ok ((1 ∷ v.operator_address) ∷ k);
  set_last_validator_power = λ a p k. ok ((2 ∷ a) ∷ k);
  bond_denom = λ k. ok [];
  after_validator_created = λ a k s. ok s;
  set_historical_rewards = λ a p n d. ok d;
  set_current_rewards = λ a p d. ok d;
  set_accumulated_commission = λ a d. ok d;
  set_outstanding_rewards = λ a d. ok d;
  set_signing_info = λ a i l. (i.start_height, none);
  new_coins = λ denom n. n;
  mint_coins = mint;
  send_coins_from_module_to_account = send;
}

abbrev pub small_keys : Keys Bytes ℕ
small_keys = record {
  is_power = of_kind 1;
  is_last = of_kind 2;
  is_validator = of_kind 3;
  is_queue = of_kind 4;
  validator_key = λ v. 3 ∷ v.operator_address;
  cons_key = λ v. 5 ∷ v.consensus_pubkey;
  power_key = λ v. 1 ∷ v.operator_address;
  last_key = λ a. 2 ∷ a;
}

same-of_kind : (n : ℕ) (a b : Bytes) → bytes_equal a b ≡ true → of_kind n a ≡ of_kind n b
same-of_kind n a b e = ap (of_kind n) ((bytes_equal_iff a b).0 e)

visited-keep_kind :
    (n : ℕ) (k : List Bytes) (b : Bytes) → visited (keep_kind n k) b ≡ of_kind n b && visited k b
unfolding keep_kind visited
visited-keep_kind n [] b = ground arith
visited-keep_kind n (a ∷ k) b = elim (Bool-cases (bytes_equal a b)) [
  | inl e ↦ ground (arith, visited-keep_kind n k b, same-of_kind n a b e)
  | inr e ↦ ground (arith, visited-keep_kind n k b)
]

visited-remove :
    (a : Bytes) (k : List Bytes) (b : Bytes)
    → visited (remove a k) b ≡ visited k b && not (bytes_equal a b)
unfolding remove visited
visited-remove a [] b = refl
visited-remove a (x ∷ k) b = elim (Bool-cases (bytes_equal a x)) [
  | inl e ↦
      let same : bytes_equal x b ≡ bytes_equal a b =
        ap (λ y. bytes_equal y b) (sym ((bytes_equal_iff a x).0 e)) in
      rw (e, same) (ground (arith, visited-remove a k b))
  | inr e ↦ rw e (elim (Bool-cases (bytes_equal x b)) [
    | inl here ↦
        let other : bytes_equal a b ≡ false =
          sym (ap (bytes_equal a) ((bytes_equal_iff x b).0 here)) ∙ e in
        rw (here, other) refl
    | inr here ↦ rw here (ground (arith, visited-remove a k b))
  ])
]

visited_added :
    (a : Bytes) (k : List Bytes) (b : Bytes) → visited (a ∷ k) b ≡ visited k b || bytes_equal a b
unfolding visited
visited_added a k b = ground arith

injective : {k k' : List Bytes} → ◌≡◌ {A = Outcome Fault (List Bytes)} (ok k) (ok k') → k ≡ k'
injective {k = k} e = cc

kept :
    (n : ℕ) (k found : List Bytes) (b : Bytes)
    → ◌≡◌ {A = Outcome Fault (List Bytes)} (ok (keep_kind n k)) (ok found)
    → visited found b ≡ of_kind n b && visited k b
kept n k found b e = rw (← injective e) (visited-keep_kind n k b)

added :
    (a : Bytes) (k k' : List Bytes) (b : Bytes)
    → ◌≡◌ {A = Outcome Fault (List Bytes)} (ok (a ∷ k)) (ok k')
    → visited k' b ≡ visited k b || bytes_equal a b
added a k k' b e = rw (← injective e) (visited_added a k b)

pub small_sdk-IsKeyStore : IsKeyStore small_sdk small_keys visited
unfolding bytes_equal
small_sdk-IsKeyStore = record {
  deleted = λ k a b. visited-remove a k b;
  power = λ k found b e. kept 1 k found b e;
  last = λ k found b e. kept 2 k found b e;
  validators = λ k b. visited-keep_kind 3 k b;
  queue = λ k b. visited-keep_kind 4 k b;
  set_validator = λ k k' v b e. added (3 ∷ v.operator_address) k k' b e;
  set_cons = λ k k' v b e. added (5 ∷ v.consensus_pubkey) k k' b e;
  set_power = λ k k' v b e. added (1 ∷ v.operator_address) k k' b e;
  set_last = λ k k' address power b e. added (2 ∷ address) k k' b e;
}

abbrev pub supply : Text → Bank → ℕ
supply denom bank = bank.0

abbrev pub balance : Text → Bank → Bytes → ℕ
balance denom bank = bank.1

bank_injective : {b b' : Bank} → ◌≡◌ {A = Outcome Fault Bank} (ok b) (ok b') → b ≡ b'
bank_injective {b = b} e = cc

-- A bank that a sending leaves.
sent_bank :
    (n : ℕ) (b b' : Bank) (a : Bytes)
    → send a n b ≡ ok b'
    → (bytes_equal a minter ≡ false)
      × ((
        b.0,
        λ (x : Bytes).
            if bytes_equal a x
            then b.1 x + n
            else if bytes_equal minter x
            then b.1 x - n
            else b.1 x,
      )
          ≡ b')
sent_bank n b b' a e = elim (Bool-cases (bytes_equal a minter)) [
  | inl mine ↦ cc (rw mine at e)
  | inr other ↦ (other, bank_injective (rw other at e))
]

pub small_sdk-IsBank : IsBank small_sdk supply balance minter
unfolding bytes_equal
small_sdk-IsBank = record {
  minted_supply = λ denom n b b' e. ap (λ x. x.0) (sym (bank_injective e));
  minted = λ denom n b b' x e. ap (λ y. y.1 x) (sym (bank_injective e));
  sent_supply = λ denom n b b' a e. ap (λ x. x.0) (sym (sent_bank n b b' a e).1);
  sent = λ denom n b b' a x e. ap (λ y. y.1 x) (sym (sent_bank n b b' a e).1);
  sent_elsewhere = λ denom n b b' a e. (sent_bank n b b' a e).0;
}
