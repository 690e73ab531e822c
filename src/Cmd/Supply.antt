-- ===== src/Cmd/Supply.antt =====
-- The supply in the genesis of the local testnet.
use mathlib.Core.List
use mathlib.Core.List.{Perm, foldr}
use native.Mathlib.Nat.{ℕ_set}
use tatcoin.Base.{ℕ, ◌+◌, ◌*◌, ◌≡◌, refl, sym, ap, ◌∙◌, List, [], ◌∷◌, ◌++◌, arith}
use tatcoin.App.Run.{done, >>=-eq-done}
use tatcoin.App.Ended.{went_on}
use tatcoin.Cmd.Flags.{Text}
use tatcoin.Cmd.Collect.{Config}
use tatcoin.Cmd.NodeSdk.{InitArgs, Balance, NodeSdk}
use tatcoin.Cmd.Nodes.{Made, account_coins, init_nodes}
use tatcoin.Cmd.Rounds.{Round, init_nodes-keeps}
use tatcoin.Cmd.GenFiles.{BankGenesis, GenSdk, add_supply, set_bank}

-- The amount in a list of balances, by the amount in coins.
pub total : {Coin : Type 0} → (List Coin → ℕ) → List (Balance Coin) → ℕ
total amount [] = 0
total amount (b ∷ bs) = amount b.coins + total amount bs

total-append :
    {Coin : Type 0} (amount : List Coin → ℕ) (xs ys : List (Balance Coin))
    → total amount (xs ++ ys) ≡ total amount xs + total amount ys
unfolding total
total-append amount [] ys = omega arith
total-append amount (x ∷ xs) ys = omega (arith, total-append amount xs ys)

-- The total does not depend on the order.
total-foldr :
    {Coin : Type 0} (amount : List Coin → ℕ) (bs : List (Balance Coin))
    → total amount bs ≡ foldr (λ (b : Balance Coin) n. amount b.coins + n) 0 bs
unfolding total
total-foldr amount [] = refl
total-foldr amount (b ∷ bs) = ap (λ n. amount b.coins + n) (total-foldr amount bs)

pub total-Perm :
    {Coin : Type 0} (amount : List Coin → ℕ) (xs ys : List (Balance Coin))
    → Perm xs ys
    → total amount xs ≡ total amount ys
total-Perm amount xs ys p =
    total-foldr amount xs
    ∙ List.Perm.foldr-eq ℕ_set (λ b n. amount b.coins + n) (λ b c n. omega arith) p 0
    ∙ sym (total-foldr amount ys)

done-injective : {A : Type 0} {a b : A} → done a ≡ done b → a ≡ b
done-injective {a = a} h = cc

module _ {E W J Json Rest AuthRest BankRest Account Packed Coin : Type 0}
    (gen : GenSdk E W J Json Rest AuthRest BankRest Account Packed Coin) (amount : List Coin → ℕ)
    (additive : (c d e : List Coin) → gen.add c d ≡ done e → amount e ≡ amount c + amount d) where
  amount-add_supply :
      (bals : List (Balance Coin)) (s s' : List Coin)
      → add_supply gen bals s ≡ done s'
      → amount s' ≡ amount s + total amount bals
  unfolding add_supply total
  amount-add_supply [] s s' e = omega (arith, ap amount (done-injective e))
  amount-add_supply (b ∷ bals) s s' e =
      let (t, e1, f1) = >>=-eq-done (gen.add s b.coins) _ e in
      omega (arith, additive s b.coins t e1, amount-add_supply bals t s' f1)

  amount-set_bank :
      (bals : List (Balance Coin)) (bank bank' : BankGenesis Coin BankRest)
      → set_bank gen bals bank ≡ done bank'
      → amount bank'.supply ≡ amount bank.supply + total amount (gen.sanitize_genesis_balances bals)
  unfolding set_bank
  amount-set_bank bals bank bank' e =
      let (supply, e1, f1) =
        >>=-eq-done (add_supply gen (gen.sanitize_genesis_balances bals) bank.supply) _ e in
      ap amount (sym (ap (λ x. x.supply) (done-injective f1)))
      ∙ amount-add_supply (gen.sanitize_genesis_balances bals) bank.supply supply e1

  module _ {AppRest Key Keyring Addr Algo M T Bytes NodeRest : Type 0}
      (sdk : NodeSdk E W NodeRest AppRest Key Keyring Addr Algo Coin M T Account Bytes)
      (join : List Text → Text) (genesis_file : Config NodeRest → Text) (args : InitArgs Coin) where
    -- Where the sum of coins adds amounts and the sanitized balances are the balances reordered: once the loop has
    -- gone on for `n` nodes, the supply in the genesis of the bank has grown by the coins of `n` accounts.
    pub amount-init_nodes :
        (n : ℕ) (m m' : Made NodeRest AppRest Key Coin Account) (w w' : W)
        (bank bank' : BankGenesis Coin BankRest)
        → ((bals : List (Balance Coin)) → Perm (gen.sanitize_genesis_balances bals) bals)
        → m.gen_balances ≡ []
        → init_nodes sdk join genesis_file args n 0 m w ≡ went_on (m', w')
        → set_bank gen m'.gen_balances bank ≡ done bank'
        → amount bank'.supply
          ≡ amount bank.supply + n * amount (account_coins sdk join genesis_file args)
    unfolding total
    amount-init_nodes n m m' w w' bank bank' sanitized empty e set =
        let kept : total amount m'.gen_balances ≡ (0 + n) * amount coins =
          init_nodes-keeps sdk join genesis_file args
            (λ i x. total amount x.gen_balances ≡ i * amount coins) adds n 0 m m' w w' e
            (ap (total amount) empty ∙ omega arith) in
        omega (
          arith,
          amount-set_bank m'.gen_balances bank bank' set,
          total-Perm amount _ _ (sanitized m'.gen_balances),
          kept,
        )
      where
        coins : List Coin
        coins = account_coins sdk join genesis_file args

        adds :
            (i : ℕ) (x x' : Made NodeRest AppRest Key Coin Account)
            → Round sdk join genesis_file args i x x'
            → total amount x.gen_balances ≡ i * amount coins
            → total amount x'.gen_balances ≡ (i + 1) * amount coins
        adds i x x' round before =
            let one : List (Balance Coin) =
              record { address = round.address; coins = coins } ∷ [] in
            omega (
              arith,
              ap (total amount) round.balances,
              total-append amount x.gen_balances one,
              before,
            )
