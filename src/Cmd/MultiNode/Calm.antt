-- ===== src/Cmd/MultiNode/Calm.antt =====
-- When `multi-node` panics (cmd/tatcoind/cmd/testnet_multi_node.go).
use tatcoin.Base.{ℕ, ◌+◌, ◌^◌, ◌<◌, ◌≤◌, ◌≡◌, refl, Option, none, some, List, [], ◌∷◌}
use tatcoin.Keeper.Sdk.{Outcome, ok, err}
use tatcoin.App.Run.{Run, done, ◌>>=◌}
use tatcoin.Cmd.Flags.{Text, Map, split, read_stakes_loop, read_stakes}
use tatcoin.Cmd.Collect.{Config, Tools}
use tatcoin.Cmd.Paths.{Os}
use tatcoin.Cmd.NodeSdk.{InitArgs, AppConfig, NodeSdk}
use tatcoin.Cmd.GenFiles.{GenSdk}
use tatcoin.Cmd.Safe.{Safe, Safe->>=, Safe-try_step, IsCalm}
use tatcoin.Cmd.Safe.Whole.{Safe-init_testnet_files}
use tatcoin.Cmd.MultiNode.{
  SdkNames, FlagSet, int_of, flag_num_validators, flag_validators_stake_amount, stakes_of,
  read_args, multi_node_run,
}

module _ {N Coin : Type 0} (new_int_from_string : Text → Option N) (new_coin : N → Run Coin) where
  -- An amount that is a number makes a coin.
  abbrev pub CoinedIf : Option N → Type 0
  CoinedIf none = Unit {0}
  CoinedIf (some a) = (coin : Coin) × (new_coin a ≡ done coin)

  abbrev pub Coined : List Text → Type 0
  Coined [] = Unit {0}
  Coined (amount ∷ amounts) = CoinedIf (new_int_from_string amount) × Coined amounts

  read_stakes_loop-done :
      (amounts : List Text) (top : ℕ) (m : Map Coin)
      → Coined amounts
      → (m' : Map Coin) × (read_stakes_loop new_int_from_string new_coin amounts top m ≡ done m')
  unfolding read_stakes_loop
  read_stakes_loop-done [] top m h = (m, refl)
  read_stakes_loop-done (amount ∷ amounts) top m h =
      go (new_int_from_string amount) h.0 (λ t k. read_stakes_loop-done amounts t k h.1)
    where
      go :
          (o : Option N)
          → CoinedIf o
          → ((t : ℕ) (k : Map Coin)
              → (m' : Map Coin) × (read_stakes_loop new_int_from_string new_coin amounts t k
                  ≡ done m'))
          → (m' : Map Coin) × (elim o as (λ x. Run (Map Coin)) [
            | none ↦ read_stakes_loop new_int_from_string new_coin amounts top m
            | some a ↦ new_coin a >>= λ coin.
                read_stakes_loop new_int_from_string new_coin amounts (top + 1) ((top, coin) ∷ m)
          ]
              ≡ done m')
      go none h later = later top m
      go (some a) (coin, e) later = rw e (later (top + 1) ((top, coin) ∷ m))

  module _ {E : Type 0} (names : SdkNames) where
    -- Every part of a flag that is read, where it is a number, makes a coin.
    abbrev pub CoinedFlag : Outcome E Text → Type 0
    CoinedFlag (ok s) = Coined (split s)
    CoinedFlag (err e) = Unit {0}

    stakes_of-done :
        (r : Outcome E Text)
        → CoinedFlag r
        → (stakes : Map Coin) × (stakes_of names new_int_from_string new_coin r ≡ done stakes)
    unfolding stakes_of read_stakes
    stakes_of-done (err e) h = ([], refl)
    stakes_of-done (ok s) h = read_stakes_loop-done (split s) 0 [] h

    read_args-done :
        (flags : FlagSet E)
        → CoinedFlag (flags.get_string flag_validators_stake_amount)
        → (args : InitArgs Coin) × (args.shared.num_validators
            ≡ int_of (flags.get_int flag_num_validators))
          × (read_args names new_int_from_string new_coin flags ≡ done args)
    unfolding read_args
    read_args-done flags h =
        let (stakes, e) = stakes_of-done (flags.get_string flag_validators_stake_amount) h in
        rw e (_, refl, refl)

    module _ {W Rest AppRest Key Keyring Addr Algo M T Account Bytes : Type 0}
        (sdk : NodeSdk E W Rest AppRest Key Keyring Addr Algo Coin M T Account Bytes)
        {Genesis G Time : Type 0} (tools : Tools E W Rest Text Key Genesis G Time)
        {J Json GenRest AuthRest BankRest Packed : Type 0}
        (gen : GenSdk E W J Json GenRest AuthRest BankRest Account Packed Coin) {Contents : Type 0}
        (os : Os E W Contents) where
      -- Where no call of the SDK in the initialization panics, the number of validators that the flag
      -- gives is not negative and at most the length of the longest slice, and each part of the stakes
      -- flag that is a number makes a coin: the command ends without a panic, whatever the other flags
      -- are.
      pub Safe-multi_node_run :
          {Ctx : Type 0} (ctx : Outcome E Ctx) (flags : FlagSet E) (max_slice : ℕ) (draws : List ℕ)
          (now : Time) (config : Config Rest) (app_config : AppConfig AppRest)
          → IsCalm gen
          → int_of (flags.get_int flag_num_validators) < 2 ^ 63
          → int_of (flags.get_int flag_num_validators) ≤ max_slice
          → CoinedFlag (flags.get_string flag_validators_stake_amount)
          → Safe (
              multi_node_run names new_int_from_string new_coin sdk tools gen os ctx flags max_slice
                draws now config app_config)
      unfolding multi_node_run
      Safe-multi_node_run ctx flags max_slice draws now config app_config calm small room coined =
          let (args, number, made) = read_args-done flags coined in
          let fits : args.shared.num_validators < 2 ^ 63 = rw number small in
          let long : args.shared.num_validators ≤ max_slice = rw number room in
          Safe->>= _ _ (Safe-try_step (λ w. (ctx, w))) λ client_ctx. rw made (
            Safe-init_testnet_files sdk tools gen os calm max_slice draws args now config app_config
              fits long)
