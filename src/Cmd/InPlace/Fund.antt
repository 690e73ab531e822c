-- ===== src/Cmd/InPlace/Fund.antt =====
-- The accounts that the in-place testnet funds.
use tatcoin.Base.{
  ℕ, ◌+◌, ◌-◌, ◌*◌, ◌≡◌, ◌≢◌, refl, sym, ap, ◌∙◌, inl, inr, some, List, [], ◌∷◌, Bool, true, false,
  if◌then◌else◌, length, Bool-cases, arith,
}
use tatcoin.Keeper.Sdk.{Outcome, ok, err}
use tatcoin.Keeper.Server.{bytes_equal}
use tatcoin.Keeper.Updates.{bytes_equal_iff}
use tatcoin.Cmd.Flags.{Text, split}
use tatcoin.Cmd.InPlace.Sdk.{Bytes, Stores, Sdk}
use tatcoin.Cmd.InPlace.Args.{ArgError, ValArgs, Options, get_command_args}
use tatcoin.Cmd.InPlace.Init.{
  ran, handle_err, funded, fund_account, fund_accounts, init_app_for_testnet, with_args,
  new_testnet_app,
}
use tatcoin.Cmd.InPlace.Steps.{
  >>=-eq-ran, ran-injective, handle_err-ran, init_app_for_testnet-Parts,
}
use tatcoin.Cmd.InPlace.Parsed.{get_command_args-ok_iff}

-- What the SDK documents of the bank, by denomination: minting adds to the supply and to the balance
-- of the minter; sending takes from the minter and gives to the account, which is another, since the
-- account of a module that is blocked receives nothing.
pub record IsBank {E K D L B Any Decimal Coins : Type 0} (sdk : Sdk E K D L B Any Decimal Coins)
    (supply : Text → B → ℕ) (balance : Text → B → Bytes → ℕ) (minter : Bytes) : Type 0 where
  pub minted_supply :
      (denom : Text) (n : ℕ) (b b' : B)
      → sdk.mint_coins (sdk.new_coins denom n) b ≡ ok b'
      → supply denom b' ≡ supply denom b + n
  pub minted :
      (denom : Text) (n : ℕ) (b b' : B) (x : Bytes)
      → sdk.mint_coins (sdk.new_coins denom n) b ≡ ok b'
      → balance denom b' x
        ≡ (if bytes_equal minter x then balance denom b x + n else balance denom b x)
  pub sent_supply :
      (denom : Text) (n : ℕ) (b b' : B) (a : Bytes)
      → sdk.send_coins_from_module_to_account a (sdk.new_coins denom n) b ≡ ok b'
      → supply denom b' ≡ supply denom b
  pub sent :
      (denom : Text) (n : ℕ) (b b' : B) (a x : Bytes)
      → sdk.send_coins_from_module_to_account a (sdk.new_coins denom n) b ≡ ok b'
      → balance denom b' x ≡ (
          if bytes_equal a x
          then balance denom b x + n
          else if bytes_equal minter x
          then balance denom b x - n
          else balance denom b x)
  pub sent_elsewhere :
      (denom : Text) (n : ℕ) (b b' : B) (a : Bytes)
      → sdk.send_coins_from_module_to_account a (sdk.new_coins denom n) b ≡ ok b'
      → bytes_equal a minter ≡ false

-- Whether a text is read as an account.
abbrev pub reads_as : {E : Type 0} → Outcome E Bytes → Bytes → Bool
reads_as (ok a) x = bytes_equal a x
reads_as (err e) x = false

module _ {E K D L B Any Decimal Coins : Type 0} (sdk : Sdk E K D L B Any Decimal Coins) where
  -- How many of the texts are read as an account.
  unfoldable pub times : List Text → Bytes → ℕ
  times [] x = 0
  times (text ∷ texts) x = (if reads_as (sdk.account_to_bytes text) x then 1 else 0) + times texts x

-- The balances of one account through a minting and a sending.
moved :
    (to from : Bool) (x y z : ℕ)
    → (to ≡ true → from ≡ false)
    → y ≡ (if from then x + funded else x)
    → z ≡ (if to then y + funded else if from then y - funded else y)
    → z ≡ x + (if to then funded else 0)
moved true true x y z other minted sent = cc (other refl)
moved true false x y z other minted sent = omega arith
moved false true x y z other minted sent = omega arith
moved false false x y z other minted sent = omega arith

-- An account that is not the minter is another than the minter wherever it stands.
apart :
    (minter a x : Bytes)
    → bytes_equal a minter ≡ false
    → bytes_equal a x ≡ true
    → bytes_equal minter x ≡ false
apart minter a x other same =
    let here : a ≡ x = (bytes_equal_iff a x).0 same in
    elim (Bool-cases (bytes_equal minter x)) [
      | inl mine ↦
          let there : minter ≡ x = (bytes_equal_iff minter x).0 mine in
          let again : bytes_equal a minter ≡ true =
            (bytes_equal_iff a minter).1 (here ∙ sym there) in
          cc
      | inr not_mine ↦ not_mine
    ]

module _ {E K D L B Any Decimal Coins : Type 0} (sdk : Sdk E K D L B Any Decimal Coins)
    (supply : Text → B → ℕ) (balance : Text → B → Bytes → ℕ) (minter : Bytes)
    (law : IsBank sdk supply balance minter) (denom : Text) where
  -- One account: the supply grows, the minter has what it had, and another account is funded if it is
  -- the one that the text is read as.
  funds :
      (text : Text) (b b' : B) (x : Bytes)
      → fund_account sdk (sdk.new_coins denom funded) text b ≡ ran b'
      → (supply denom b' ≡ supply denom b + funded)
        × (balance denom b' x
            ≡ balance denom b x + (if reads_as (sdk.account_to_bytes text) x then funded else 0))
        × (reads_as (sdk.account_to_bytes text) minter ≡ false)
  unfolding fund_account
  funds text b b' x e =
      let (b1, e1, r1) =
        >>=-eq-ran (handle_err (sdk.mint_coins (sdk.new_coins denom funded) b)) _ e in
      let (a, e2, r2) = >>=-eq-ran (handle_err (sdk.account_to_bytes text)) _ r1 in
      let minted = handle_err-ran _ b1 e1 in
      let read = handle_err-ran _ a e2 in
      let sent = handle_err-ran _ b' r2 in
      let elsewhere = law.sent_elsewhere denom funded b1 b' a sent in
      rw read (
        law.sent_supply denom funded b1 b' a sent ∙ law.minted_supply denom funded b b1 minted,
        moved (bytes_equal a x) (bytes_equal minter x) (balance denom b x) (balance denom b1 x)
            (balance denom b' x) (apart minter a x elsewhere)
            (law.minted denom funded b b1 x minted) (law.sent denom funded b1 b' a x sent),
        elsewhere,
      )

  fund_accounts-balance :
      (texts : List Text) (b b' : B) (x : Bytes)
      → fund_accounts sdk (sdk.new_coins denom funded) texts b ≡ ran b'
      → (supply denom b' ≡ supply denom b + funded * length texts)
        × (balance denom b' x ≡ balance denom b x + funded * times sdk texts x)
        × (times sdk texts minter ≡ 0)
  unfolding fund_accounts times
  fund_accounts-balance [] b b' x e = rw (← ran-injective e) (omega arith)
  fund_accounts-balance (text ∷ texts) b b' x e =
      let (mid, first, rest) =
        >>=-eq-ran (fund_account sdk (sdk.new_coins denom funded) text b) _ e in
      let now = funds text b mid x first in
      let later = fund_accounts-balance texts mid b' x rest in
      (
        omega (arith, now.0, later.0),
        ground (arith, now.1, later.1),
        ground (arith, now.2, later.2),
      )

  -- After the command has gone on, the supply of the bond denomination has grown by 10^9 for each text
  -- of the arguments, each account has 10^9 more for each text that is read as it, and the minter has
  -- what it had: none of the texts is read as the minter.
  pub init_app_for_testnet-balance :
      (last_height : ℕ) (args : ValArgs) (s s' : Stores K D L B) (x : Bytes)
      → sdk.bond_denom s'.staking ≡ ok denom
      → init_app_for_testnet sdk last_height args s ≡ ran s'
      → (supply denom s'.bank ≡ supply denom s.bank + funded * length args.accounts_to_fund)
        × (balance denom s'.bank x
            ≡ balance denom s.bank x + funded * times sdk args.accounts_to_fund x)
        × (balance denom s'.bank minter ≡ balance denom s.bank minter)
  init_app_for_testnet-balance last_height args s s' x bond e =
      let (key, address, k, l, found, made, read, removed, added, signed, found_bond, paid) =
        init_app_for_testnet-Parts sdk last_height args s s' e in
      let here : found ≡ denom = cc in
      let paid_here : fund_accounts sdk (sdk.new_coins denom funded) args.accounts_to_fund s.bank
          ≡ ran s'.bank =
        rw here at paid in
      let some_account = fund_accounts-balance args.accounts_to_fund s.bank s'.bank x paid_here in
      let of_minter = fund_accounts-balance args.accounts_to_fund s.bank s'.bank minter paid_here in
      (some_account.0, some_account.1, omega (arith, of_minter.1, of_minter.2))

module _ {E K D L B Any Decimal Coins : Type 0} (sdk : Sdk E K D L B Any Decimal Coins) where
  -- With an empty flag `accounts-to-fund`, which is its default, the command never goes on: the one
  -- account of the list is the empty text, which the codec of accounts refuses.
  pub new_testnet_app_unfunded :
      (last_height : ℕ) (opts : Options) (s s' : Stores K D L B) (e : E)
      → opts.accounts_to_fund ≡ []
      → sdk.account_to_bytes [] ≡ err e
      → new_testnet_app sdk (some (last_height, s)) opts ≢ ran s'
  unfolding new_testnet_app fund_accounts fund_account split
  new_testnet_app_unfunded last_height opts s s' e empty refused h =
      go (get_command_args opts) refl h
    where
      unpaid :
          (coins : Coins) (args : ValArgs) (b b' : B)
          → args.accounts_to_fund ≡ [] ∷ []
          → fund_accounts sdk coins args.accounts_to_fund b ≢ ran b'
      unpaid coins args b b' one paid =
          let (b1, first, rest) = >>=-eq-ran (fund_account sdk coins [] b) _ (rw one at paid) in
          let (b2, minted, next) = >>=-eq-ran (handle_err (sdk.mint_coins coins b)) _ first in
          let (a, read, sent) = >>=-eq-ran (handle_err (sdk.account_to_bytes [])) _ next in
          cc (handle_err-ran _ a read)

      go :
          (r : Outcome ArgError ValArgs)
          → get_command_args opts ≡ r
          → with_args sdk last_height s r ≢ ran s'
      go (err x) parsed k = cc
      go (ok args) parsed k =
          let given = (get_command_args-ok_iff opts args).0 parsed in
          let (key, address, k1, l, denom, made, read, removed, added, signed, bond, paid) =
            init_app_for_testnet-Parts sdk last_height args s s' k in
          unpaid (sdk.new_coins denom funded) args s.bank s'.bank (given.4 ∙ ap split empty) paid
