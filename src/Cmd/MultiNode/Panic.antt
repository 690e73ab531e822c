-- ===== src/Cmd/MultiNode/Panic.antt =====
-- An amount that makes no coin (cmd/tatcoind/cmd/testnet_multi_node.go).
use tatcoin.Base.{ℕ, ◌+◌, ◌≡◌, refl, Option, none, some, List, [], ◌∷◌, ◌++◌}
use tatcoin.Keeper.Sdk.{ok}
use tatcoin.App.Run.{Run, done, ◌>>=◌}
use tatcoin.App.Ended.{panics}
use tatcoin.Cmd.Flags.{Text, Map, split, read_stakes_loop, read_stakes}
use tatcoin.Cmd.Collect.{Config, Tools}
use tatcoin.Cmd.Paths.{Os}
use tatcoin.Cmd.NodeSdk.{NodeSdk, AppConfig}
use tatcoin.Cmd.GenFiles.{GenSdk}
use tatcoin.Cmd.MultiNode.{
  SdkNames, FlagSet, flag_validators_stake_amount, stakes_of, read_args, multi_node_run,
}

module _ {N Coin : Type 0} (new_int_from_string : Text → Option N) (new_coin : N → Run Coin) (a : N)
    (uncoined : new_coin a ≡ Run.panics) where
  read_stakes_loop-panics :
      (xs ys : List Text) (amount : Text) (top : ℕ) (m : Map Coin)
      → new_int_from_string amount ≡ some a
      → read_stakes_loop new_int_from_string new_coin (xs ++ (amount ∷ ys)) top m ≡ Run.panics
  unfolding read_stakes_loop
  read_stakes_loop-panics [] ys amount top m e = rw (e, uncoined) refl
  read_stakes_loop-panics (x ∷ xs) ys amount top m e =
      go (new_int_from_string x) (λ t k. read_stakes_loop-panics xs ys amount t k e)
    where
      later : ℕ → Map Coin → Run (Map Coin)
      later = read_stakes_loop new_int_from_string new_coin (xs ++ (amount ∷ ys))

      coined :
          (r : Run Coin)
          → ((t : ℕ) (k : Map Coin) → later t k ≡ Run.panics)
          → (r >>= λ coin. later (top + 1) ((top, coin) ∷ m)) ≡ Run.panics
      coined (done coin) h = h (top + 1) ((top, coin) ∷ m)
      coined Run.panics h = refl

      go :
          (o : Option N)
          → ((t : ℕ) (k : Map Coin) → later t k ≡ Run.panics)
          → elim o as (λ x. Run (Map Coin)) [
            | none ↦ later top m
            | some b ↦ new_coin b >>= λ coin. later (top + 1) ((top, coin) ∷ m)
          ]
            ≡ Run.panics
      go none h = h top m
      go (some b) h = coined (new_coin b) h

  module _ {E : Type 0} (names : SdkNames)
      {W Rest AppRest Key Keyring Addr Algo M T Account Bytes : Type 0}
      (sdk : NodeSdk E W Rest AppRest Key Keyring Addr Algo Coin M T Account Bytes)
      {Genesis G Time : Type 0} (tools : Tools E W Rest Text Key Genesis G Time)
      {J Json GenRest AuthRest BankRest Packed : Type 0}
      (gen : GenSdk E W J Json GenRest AuthRest BankRest Account Packed Coin) {Contents : Type 0}
      (os : Os E W Contents) where
    -- Where a part of the stakes flag is a number that makes no coin, as a negative one, the command
    -- panics, once it has its client context: whatever stands before and behind that part, and whatever
    -- the other flags are.
    pub multi_node_run-panics :
        {Ctx : Type 0} (ctx : Ctx) (flags : FlagSet E) (s : Text) (xs ys : List Text)
        (amount : Text) (max_slice : ℕ) (draws : List ℕ) (now : Time) (config : Config Rest)
        (app_config : AppConfig AppRest) (w : W)
        → flags.get_string flag_validators_stake_amount ≡ ok s
        → split s ≡ xs ++ (amount ∷ ys)
        → new_int_from_string amount ≡ some a
        → multi_node_run names new_int_from_string new_coin sdk tools gen os
            (ok ctx)
            flags
            max_slice
            draws
            now
            config
            app_config
            w
          ≡ panics
    unfolding multi_node_run read_args stakes_of read_stakes
    multi_node_run-panics ctx flags s xs ys amount max_slice draws now config app_config w given
          parts e =
        rw (given, parts, read_stakes_loop-panics xs ys amount 0 [] e) refl
