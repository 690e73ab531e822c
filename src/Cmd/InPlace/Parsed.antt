-- ===== src/Cmd/InPlace/Parsed.antt =====
-- When `getCommandArgs` gives arguments, and which.
use tatcoin.Base.{◌≡◌, ◌≢◌, ◌↔◌, refl, sym, ap, Option, none, some, List, [], ◌∷◌}
use tatcoin.Keeper.Sdk.{Outcome, ok, err}
use tatcoin.Cmd.Flags.{Text, split}
use tatcoin.Cmd.InPlace.Sdk.{Bytes}
use tatcoin.Cmd.InPlace.Args.{ValArgs, Options, ArgError, asserted, given, ◌>>=◌, get_command_args}

module _ (args : ValArgs) where
  args_of : Outcome ArgError ValArgs → ValArgs
  args_of (ok x) = x
  args_of (err e) = args

  -- The parts, option by option.
  parts :
      (addr key : Option Bytes) (operator upgrade : Option Text) (accounts : List Text)
      (home : Text)
      → (do
        a ← asserted ArgError.new_val_addr_type addr
        k ← asserted ArgError.new_val_pub_key_type key
        o ← asserted ArgError.new_operator_address_type operator
        u ← asserted ArgError.upgrade_to_trigger_type upgrade
        h ← given home
        ok (record {
          new_val_addr = a;
          new_operator_address = o;
          new_val_pub_key = k;
          accounts_to_fund = accounts;
          upgrade_to_trigger = u;
          home_dir = h;
        }))
        ≡ ok args
      → (addr ≡ some args.new_val_addr)
        × (key ≡ some args.new_val_pub_key)
        × (operator ≡ some args.new_operator_address)
        × (upgrade ≡ some args.upgrade_to_trigger)
        × (args.accounts_to_fund ≡ accounts)
        × (home ≡ args.home_dir)
        × (args.home_dir ≢ [])
  unfolding args_of
  parts none key operator upgrade accounts home e = cc
  parts (some a) none operator upgrade accounts home e = cc
  parts (some a) (some k) none upgrade accounts home e = cc
  parts (some a) (some k) (some o) none accounts home e = cc
  parts (some a) (some k) (some o) (some u) accounts [] e = cc
  parts (some a) (some k) (some o) (some u) accounts (c ∷ home) e =
      let same = ap args_of e in
      (
        ap (λ x. some x.new_val_addr) same,
        ap (λ x. some x.new_val_pub_key) same,
        ap (λ x. some x.new_operator_address) same,
        ap (λ x. some x.upgrade_to_trigger) same,
        sym (ap (λ x. x.accounts_to_fund) same),
        ap (λ x. x.home_dir) same,
        λ empty. cc (ap (λ x. x.home_dir) same),
      )

-- The arguments are given exactly when the four options are of their types and the home is not empty;
-- they are then those of the options, with the flag of accounts split at its commas.
pub get_command_args-ok_iff :
    (opts : Options) (args : ValArgs)
    → (get_command_args opts ≡ ok args) ↔ (
        (opts.new_val_addr ≡ some args.new_val_addr)
        × (opts.user_pub_key ≡ some args.new_val_pub_key)
        × (opts.new_op_addr ≡ some args.new_operator_address)
        × (opts.trigger_testnet_upgrade ≡ some args.upgrade_to_trigger)
        × (args.accounts_to_fund ≡ split opts.accounts_to_fund)
        × (opts.home ≡ args.home_dir)
        × (args.home_dir ≢ []))
unfolding get_command_args
get_command_args-ok_iff opts args = (
  parts args opts.new_val_addr opts.user_pub_key opts.new_op_addr opts.trigger_testnet_upgrade
      (split opts.accounts_to_fund) opts.home,
  λ (addr, key, operator, upgrade, accounts, home, full).
      rw (addr, key, operator, upgrade, ← accounts, home) (home_given args full),
)
  where
    home_given :
        (a : ValArgs)
        → a.home_dir ≢ []
        → (do h ← given a.home_dir; ok (record a { home_dir = h })) ≡ ok a
    home_given a full = go a.home_dir refl full
      where
        go :
            (h : Text)
            → h ≡ a.home_dir
            → h ≢ []
            → (do t ← given h; ok (record a { home_dir = t })) ≡ ok a
        go [] e not_empty = absurd (not_empty refl)
        go (c ∷ s) e not_empty = ap (λ t. ok (record a { home_dir = t })) e
