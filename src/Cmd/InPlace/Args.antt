-- ===== src/Cmd/InPlace/Args.antt =====
-- `valArgs` and `getCommandArgs`.
use tatcoin.Base.{Option, none, some, List, [], ◌∷◌}
use tatcoin.Keeper.Sdk.{Outcome, ok, err}
use tatcoin.Cmd.Flags.{Text, split}
use tatcoin.Cmd.InPlace.Sdk.{Bytes}

-- `valArgs`; a public key is its bytes.
pub record ValArgs : Type 0 where
  pub new_val_addr : Bytes
  pub new_operator_address : Text
  pub new_val_pub_key : Bytes
  pub accounts_to_fund : List Text
  pub upgrade_to_trigger : Text
  pub home_dir : Text

-- `AppOptions`, as it is read here: what `Get` gives is none where it is not of the type asserted;
-- the last two are texts by `cast.ToString`.
pub record Options : Type 0 where
  pub new_val_addr : Option Bytes
  pub user_pub_key : Option Bytes
  pub new_op_addr : Option Text
  pub trigger_testnet_upgrade : Option Text
  pub accounts_to_fund : Text
  pub home : Text

pub data ArgError : Type 0 where
  new_val_addr_type new_val_pub_key_type : ArgError
  new_operator_address_type upgrade_to_trigger_type invalid_home_dir : ArgError

-- `v, ok := x.(T); if !ok { return args, e }`
abbrev pub asserted : {A : Type 0} → ArgError → Option A → Outcome ArgError A
asserted e none = err e
asserted e (some a) = ok a

-- `if homeDir == ""`
abbrev pub given : Text → Outcome ArgError Text
given [] = err invalid_home_dir
given (c ∷ s) = ok (c ∷ s)

infixl 5 ◌>>=◌
abbrev pub ◌>>=◌ :
    {A B : Type 0} → Outcome ArgError A → (A → Outcome ArgError B) → Outcome ArgError B
ok a >>= f = f a
err e >>= f = err e

unfoldable pub get_command_args : Options → Outcome ArgError ValArgs
unfolding split
get_command_args opts = do
  addr ← asserted new_val_addr_type opts.new_val_addr
  key ← asserted new_val_pub_key_type opts.user_pub_key
  operator ← asserted new_operator_address_type opts.new_op_addr
  upgrade ← asserted upgrade_to_trigger_type opts.trigger_testnet_upgrade
  let accounts = split opts.accounts_to_fund
  home ← given opts.home
  ok (record {
    new_val_addr = addr;
    new_operator_address = operator;
    new_val_pub_key = key;
    accounts_to_fund = accounts;
    upgrade_to_trigger = upgrade;
    home_dir = home;
  })
