-- ===== src/App/GenesisAccount.antt =====
-- app/genesis_account.go: the account of a simulation's genesis and its validation. An int64 is the
-- 64-bit word that stands for it.
use tatcoin.Base.{
  ℕ, ◌+◌, ◌%◌, ◌^◌, ◌≡◌, ◌↔◌, ◌⊎◌, inl, inr, refl, sym, ◌∙◌, Option, none, some, List, [], ◌∷◌,
  Bool, true, false, not, leb, leb→le, Bool-cases, ◌≤◌, ◌<◌, arith, if◌then◌else◌,
}

-- The order of int64: the sign bit is turned over.
unfoldable pub int64_le : ℕ → ℕ → Bool
int64_le a b = leb ((a + 2 ^ 63) % 2 ^ 64) ((b + 2 ^ 63) % 2 ^ 64)

-- `GenesisAccount`, as far as it is validated.
pub record GenesisAccount (Base Coins : Type 0) : Type 0 where
  pub base : Base
  pub original_vesting : Coins
  pub start_time : ℕ
  pub end_time : ℕ
  pub module_name : List ℕ
  pub module_permissions : List (List ℕ)

-- The error of the vesting times, or one that is passed on.
pub data AccountError (E : Type 0) : Type 0 where
  vesting_times : AccountError E
  invalid_account : E → AccountError E

-- What it takes from the SDK: `Coins.IsZero`, `ModuleAccount.Validate`, `BaseAccount.Validate`.
pub record Accounts (E Base Coins : Type 0) : Type 0 where
  pub is_zero : Coins → Bool
  pub validate_module : Base → List ℕ → List (List ℕ) → Option E
  pub validate_base : Base → Option E

abbrev pub passed : {E : Type 0} → Option E → Option (AccountError E)
passed none = none
passed (some e) = some (invalid_account e)

-- The first of two errors.
abbrev both : {E : Type 0} → Option E → Option E → Option (AccountError E)
both none v = passed v
both (some e) v = some (invalid_account e)

accounts : {E : Type 0} (m v : Option E) → (both m v ≡ none) ↔ ((m ≡ none) × (v ≡ none))
accounts none none = (λ e. (refl, refl), λ e. refl)
accounts none (some x) = (λ e. cc, λ e. cc)
accounts (some x) v = (λ e. cc, λ e. cc)

-- The test of the vesting times before the rest.
vesting :
    {E : Type 0} (zero late : Bool) (rest : Option (AccountError E))
    → ((if not zero then (if late then some vesting_times else rest) else rest) ≡ none)
      ↔ (((zero ≡ true) ⊎ (late ≡ false)) × (rest ≡ none))
vesting true late rest = (λ e. (inl refl, e), λ p. p.1)
vesting false false rest = (λ e. (inr refl, e), λ p. p.1)
vesting false true rest = (λ e. cc, λ p. elim p.0 [ inl e ↦ cc | inr e ↦ cc ])

-- The order of the numbers that two int64 stand for, by their signs: a word from 2 ^ 63 on is negative.
pub data Before (a b : ℕ) : Type 0 where
  opposite : 2 ^ 63 ≤ a → b < 2 ^ 63 → Before a b
  negative : 2 ^ 63 ≤ a → a < b → Before a b
  not_negative : a < b → b < 2 ^ 63 → Before a b

int64_le-false : (a b : ℕ) → a < 2 ^ 64 → b < 2 ^ 64 → (int64_le b a ≡ false) ↔ Before a b
unfolding int64_le
int64_le-false a b ha hb = (to (Bool-cases (leb (2 ^ 63) a)) (Bool-cases (leb (2 ^ 63) b)), from)
  where
    to :
        (leb (2 ^ 63) a ≡ true) ⊎ (leb (2 ^ 63) a ≡ false)
        → (leb (2 ^ 63) b ≡ true) ⊎ (leb (2 ^ 63) b ≡ false)
        → leb ((b + 2 ^ 63) % 2 ^ 64) ((a + 2 ^ 63) % 2 ^ 64) ≡ false
        → Before a b
    to (inl p) (inl q) e = negative (leb→le (2 ^ 63) a p) (ground arith)
    to (inl p) (inr q) e = opposite (leb→le (2 ^ 63) a p) (ground arith)
    to (inr p) (inl q) e = absurd (ground arith)
    to (inr p) (inr q) e = not_negative (ground arith) (ground arith)

    from : Before a b → leb ((b + 2 ^ 63) % 2 ^ 64) ((a + 2 ^ 63) % 2 ^ 64) ≡ false
    from (opposite l r) = ground arith
    from (negative l r) = ground arith
    from (not_negative l r) = ground arith

module _ {E Base Coins : Type 0} (sdk : Accounts E Base Coins) where
  -- The error of the module account, where there is one.
  abbrev pub module_error : GenesisAccount Base Coins → List ℕ → Option E
  module_error sga [] = none
  module_error sga (c ∷ name) = sdk.validate_module sga.base (c ∷ name) sga.module_permissions

  abbrev pub validate_rest : Option E → GenesisAccount Base Coins → Option (AccountError E)
  validate_rest (some e) sga = some (invalid_account e)
  validate_rest none sga = passed (sdk.validate_base sga.base)

  -- `GenesisAccount.Validate`
  unfoldable pub validate_account : GenesisAccount Base Coins → Option (AccountError E)
  unfolding int64_le
  validate_account sga =
      let rest = validate_rest (module_error sga sga.module_name) sga in
      if not (sdk.is_zero sga.original_vesting)
      then (if int64_le sga.end_time sga.start_time then some vesting_times else rest)
      else rest

  -- The account of a module, where there is a name, is one that the SDK takes for valid.
  abbrev pub IsModuleValid : GenesisAccount Base Coins → List ℕ → Type 0
  IsModuleValid sga name =
      (name ≡ []) ⊎ (sdk.validate_module sga.base name sga.module_permissions ≡ none)

  module_valid :
      (sga : GenesisAccount Base Coins) (name : List ℕ)
      → (module_error sga name ≡ none) ↔ IsModuleValid sga name
  module_valid sga [] = (λ e. inl refl, λ v. refl)
  module_valid sga (c ∷ name) = (λ e. inr e, λ v. elim v [ inl e ↦ cc | inr e ↦ e ])

  -- An account whose times are int64 is valid exactly when it vests no coins or its start time, as a
  -- signed number, comes before its end time; it has no module name or the SDK takes the account of
  -- that module for valid; and its base account is valid.
  pub validate_account-none_iff :
      (sga : GenesisAccount Base Coins)
      → sga.start_time < 2 ^ 64
      → sga.end_time < 2 ^ 64
      → (validate_account sga ≡ none) ↔ (
          ((sdk.is_zero sga.original_vesting ≡ true) ⊎ Before sga.start_time sga.end_time)
          × IsModuleValid sga sga.module_name
          × (sdk.validate_base sga.base ≡ none))
  unfolding validate_account
  validate_account-none_iff sga small small' =
      let times =
        vesting (sdk.is_zero sga.original_vesting) (int64_le sga.end_time sga.start_time) rest in
      let order = int64_le-false sga.start_time sga.end_time small small' in
      let parts = accounts (module_error sga sga.module_name) (sdk.validate_base sga.base) in
      (
        λ e.
            let (vested, fine) = times.0 e in
            let (named, base) = parts.0 (rest_parts (module_error sga sga.module_name) ∙ fine) in
            (
              elim vested [ inl z ↦ inl z | inr l ↦ inr (order.0 l) ],
              (module_valid sga sga.module_name).0 named,
              base,
            ),
        λ (vested, named, base). times.1 (
          elim vested [ inl z ↦ inl z | inr l ↦ inr (order.1 l) ],
          sym (rest_parts (module_error sga sga.module_name))
              ∙ parts.1 ((module_valid sga sga.module_name).1 named, base),
        ),
      )
    where
      rest : Option (AccountError E)
      rest = validate_rest (module_error sga sga.module_name) sga

      rest_parts : (m : Option E) → both m (sdk.validate_base sga.base) ≡ validate_rest m sga
      rest_parts none = refl
      rest_parts (some e) = refl
