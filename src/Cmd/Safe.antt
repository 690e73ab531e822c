-- ===== src/Cmd/Safe.antt =====
-- Programs that do not panic, and `initGenFiles` as one where it has a file for each node.
pub mod Collecting
pub mod Whole
use tatcoin.Base.{
  ℕ, zero, suc, ◌+◌, ◌^◌, ◌<◌, ◌≤◌, ◌≡◌, ◌≢◌, refl, sym, ap, ◌∙◌, Option, none, some, List, [], ◌∷◌,
  ◌++◌, length, get_elem?, true, false, leb, if◌then◌else◌, arith,
}
use tatcoin.Keeper.Sdk.{Outcome, ok, err}
use tatcoin.App.Run.{◌>>=◌ as ◌>>>=◌}
use tatcoin.App.Run.{Run, done}
use tatcoin.App.Ended.{Ended, went_on, returned, panics}
use tatcoin.Cmd.Flags.{Text}
use tatcoin.Cmd.NodeSdk.{Prog, ◌>>=◌, then_run, or_clean, try_clean, try_step, Balance}
use tatcoin.Cmd.GenFiles.{
  GenSdk, GenesisDoc, ended_run, must, add_supply, set_bank, app_gen_state, save_at, save_files,
  init_gen_files, AuthGenesis, BankGenesis, GenesisMap,
}

-- A program that panics on no files.
abbrev pub Safe : {E W A : Type 0} → Prog E W A → Type 0
Safe {W = W} m = (w : W) → m w ≢ panics

pub Safe->>= :
    {E W A B : Type 0} (m : Prog E W A) (next : A → Prog E W B)
    → Safe m
    → ((a : A) → Safe (next a))
    → Safe (m >>= next)
Safe->>= {E} {W} {A} {B} m next first later w = go (m w) (first w)
  where
    go : (r : Ended (E × W) (A × W)) → r ≢ panics → then_run next r ≢ panics
    go (went_on (a, v)) h = later a v
    go (returned e) h = λ p. cc
    go panics h = λ p. h refl

pub Safe-try_clean :
    {E W A : Type 0} (clean : W → W) (step : W → Outcome E A × W) → Safe (try_clean clean step)
Safe-try_clean {E} {W} {A} clean step w = go (step w)
  where
    go : (r : Outcome E A × W) → or_clean clean r ≢ panics
    go (ok a, v) = λ p. cc
    go (err e, v) = λ p. cc

pub Safe-must : {E W A : Type 0} (r : Run A) → r ≢ Run.panics → Safe (must {E = E} {W = W} r)
Safe-must (done a) h w = λ p. cc
Safe-must Run.panics h w = λ p. h refl

pub Safe-try_step : {E W A : Type 0} (step : W → Outcome E A × W) → Safe (try_step step)
Safe-try_step step = Safe-try_clean (λ w. w) step

-- The calls of the SDK that panic on an error meet none: the default genesis is readable, states can be
-- written, and no sum of coins overflows.
pub record IsCalm {E W J Json Rest AuthRest BankRest Account Packed Coin : Type 0}
    (gen : GenSdk E W J Json Rest AuthRest BankRest Account Packed Coin) : Type 0 where
  pub auth_readable : gen.must_unmarshal_auth gen.default_genesis.auth ≢ Run.panics
  pub bank_readable : gen.must_unmarshal_bank gen.default_genesis.bank ≢ Run.panics
  pub auth_written : (s : AuthGenesis Packed AuthRest) → gen.must_marshal_auth s ≢ Run.panics
  pub bank_written : (s : BankGenesis Coin BankRest) → gen.must_marshal_bank s ≢ Run.panics
  pub added : (c d : List Coin) → gen.add c d ≢ Run.panics

-- An index below the length is in the list.
pub get_elem?-length :
    {A : Type 0} (xs : List A) (i : ℕ) → i < length xs → (x : A) × (get_elem? xs i ≡ some x)
get_elem?-length [] i h = absurd (omega arith)
get_elem?-length (x ∷ xs) zero h = (x, refl)
get_elem?-length (x ∷ xs) (suc i) h = get_elem?-length xs i (omega arith)

module _ {E W J Json Rest AuthRest BankRest Account Packed Coin : Type 0}
    (gen : GenSdk E W J Json Rest AuthRest BankRest Account Packed Coin) (calm : IsCalm gen) where
  add_supply-≢-panics :
      (bals : List (Balance Coin)) (s : List Coin) → add_supply gen bals s ≢ Run.panics
  unfolding add_supply
  add_supply-≢-panics [] s = λ p. cc
  add_supply-≢-panics (b ∷ bals) s =
      go (gen.add s b.coins) (calm.added s b.coins) (λ t. add_supply-≢-panics bals t)
    where
      go :
          (r : Run (List Coin))
          → r ≢ Run.panics
          → ((t : List Coin) → add_supply gen bals t ≢ Run.panics)
          → (r >>>= add_supply gen bals) ≢ Run.panics
      go (done t) h later = later t
      go Run.panics h later = λ p. h refl

  set_bank-≢-panics :
      (bals : List (Balance Coin)) (bank : BankGenesis Coin BankRest)
      → set_bank gen bals bank ≢ Run.panics
  unfolding set_bank
  set_bank-≢-panics bals bank =
      let balances = gen.sanitize_genesis_balances bals in
      go (add_supply gen balances bank.supply) (add_supply-≢-panics balances bank.supply)
    where
      go :
          (r : Run (List Coin))
          → r ≢ Run.panics
          → (r >>>= λ supply.
              done (record bank { balances = gen.sanitize_genesis_balances bals; supply = supply }))
            ≢ Run.panics
      go (done t) h = λ p. cc
      go Run.panics h = λ p. h refl

  Safe-app_gen_state :
      (accounts : List Account) (bals : List (Balance Coin))
      → Safe (app_gen_state gen accounts bals)
  unfolding app_gen_state
  Safe-app_gen_state accounts bals = Safe->>= _ _ (Safe-must _ calm.auth_readable) λ auth.
      Safe->>= _ _ (Safe-try_step _) λ packed.
        Safe->>= _ _ (Safe-must _ (calm.auth_written _)) λ auth_json.
          Safe->>= _ _ (Safe-must _ calm.bank_readable) λ bank.
            Safe->>= _ _ (Safe-must _ (set_bank-≢-panics bals bank))
              λ bank'. Safe->>= _ _ (Safe-must _ (calm.bank_written bank')) λ bank_json. λ w p. cc

  Safe-save_files :
      (doc : GenesisDoc Json) (files : List Text) (n i : ℕ)
      → i + n ≤ length files
      → Safe (save_files gen doc files n i)
  unfolding save_files
  Safe-save_files doc files zero i h = λ w p. cc
  Safe-save_files doc files (suc n) i h =
      Safe->>= _ _ (go (get_elem? files i) (get_elem?-length files i (omega arith)))
        λ _. Safe-save_files doc files n (i + 1) (omega arith)
    where
      go : (o : Option Text) → (f : Text) × (o ≡ some f) → Safe (save_at gen doc o)
      go none (f, e) = cc
      go (some f) here = Safe-try_step _

  pub Safe-init_gen_files :
      (chain : Text) (accounts : List Account) (bals : List (Balance Coin)) (files : List Text)
      (n : ℕ)
      → n ≤ length files
      → Safe (init_gen_files gen chain accounts bals files n)
  unfolding init_gen_files
  Safe-init_gen_files chain accounts bals files n h =
      Safe->>= _ _ (Safe-app_gen_state accounts bals)
        λ state. Safe->>= _ _ (Safe-try_step _) λ json. Safe-save_files _ files n 0 (omega arith)
