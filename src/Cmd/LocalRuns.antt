-- ===== src/Cmd/LocalRuns.antt =====
-- The theorems of `initTestnetFiles` at the small local testnet.
use mathlib.Core.List.{Perm}
use mathlib.Core.List
use tatcoin.Base.{ℕ, ◌+◌, ◌*◌, ◌≡◌, ◌≢◌, refl, List, [], ◌∷◌, ◌++◌, length, arith}
use tatcoin.App.Run.{Run, done, ◌>>=◌}
use tatcoin.App.Ended.{Ended, went_on, panics}
use tatcoin.Cmd.NodeSdk.{Balance}
use tatcoin.Cmd.Flags.{split, lookup, itoa, digits, port_of}
use tatcoin.Cmd.Ports.{port}
use tatcoin.Cmd.Nodes.{
  Made, account_coins, init_nodes, init_node, node_config, memo_of, make_account, make_gentx,
  write_file, val_tokens, set_app_addresses,
}
use tatcoin.Cmd.GenFiles.{BankGenesis, add_supply, set_bank}
use tatcoin.Cmd.Supply.{amount-init_nodes}
use tatcoin.Cmd.Peers.{memos, split-init_nodes}
use tatcoin.Cmd.Local.{
  join_all, small_nodes, small_gen, plus, two_nodes, first_config, first_app_config,
}

-- The sum of a list of coins.
sum : List ℕ → ℕ
sum [] = 0
sum (n ∷ ns) = n + sum ns

sum-append : (c d : List ℕ) → sum (c ++ d) ≡ sum c + sum d
unfolding sum
sum-append [] d = omega arith
sum-append (n ∷ c) d = omega (arith, sum-append c d)

sum-plus : (c d e : List ℕ) → plus c d ≡ done e → sum e ≡ sum c + sum d
sum-plus c d e p = let same : c ++ d ≡ e = cc in rw (← same) (sum-append c d)

abbrev nothing : Made ℕ ℕ ℕ ℕ ℕ
nothing = record {
  config = first_config;
  app_config = first_app_config;
  node_ids = [];
  val_pub_keys = [];
  gen_accounts = [];
  gen_balances = [];
  gen_files = [];
  persistent_peers = [];
  gentxs_files = [];
}

made_of : Ended (ℕ × ℕ) (Made ℕ ℕ ℕ ℕ ℕ × ℕ) → Made ℕ ℕ ℕ ℕ ℕ × ℕ
made_of (went_on x) = x
made_of (Ended.returned e) = (nothing, 0)
made_of panics = (nothing, 0)

abbrev made : Made ℕ ℕ ℕ ℕ ℕ × ℕ
made = made_of (init_nodes small_nodes join_all (λ c. c.root) two_nodes 2 0 nothing 0)

abbrev bank_of : Run (BankGenesis ℕ (List ℕ)) → BankGenesis ℕ (List ℕ)
bank_of (done b) = b
bank_of Run.panics = record { balances = []; supply = []; rest = [] }

abbrev bank : BankGenesis ℕ (List ℕ)
bank = record { balances = []; supply = 4 ∷ []; rest = [] }

made-init_nodes :
    init_nodes small_nodes join_all (λ c. c.root) two_nodes 2 0 nothing 0 ≡ went_on (made.0, made.1)
unfolding made_of init_nodes init_node node_config memo_of account_coins make_account make_gentx
    write_file val_tokens lookup set_app_addresses itoa digits port port_of
made-init_nodes = refl

bank-set_bank :
    set_bank small_gen made.0.gen_balances bank
    ≡ done (bank_of (set_bank small_gen made.0.gen_balances bank))
unfolding set_bank add_supply
bank-set_bank =
    go (add_supply small_gen made.0.gen_balances (4 ∷ [])) (summed made.0.gen_balances (4 ∷ []))
  where
    summed : (bals : List (Balance ℕ)) (s : List ℕ) → add_supply small_gen bals s ≢ Run.panics
    summed [] s = λ p. cc
    summed (b ∷ bals) s = summed bals (s ++ b.coins)

    go :
        (r : Run (List ℕ))
        → r ≢ Run.panics
        → (r >>= λ s. done (record bank { balances = made.0.gen_balances; supply = s }))
          ≡ done (
              bank_of
                (r >>= λ s. done (record bank { balances = made.0.gen_balances; supply = s })))
    go (done s) h = refl
    go Run.panics h = absurd (h refl)

amount-init_nodes_example :
    sum (bank_of (set_bank small_gen made.0.gen_balances bank)).supply
    ≡ sum (4 ∷ []) + 2 * sum (account_coins small_nodes join_all (λ c. c.root) two_nodes)
amount-init_nodes_example =
    amount-init_nodes small_gen sum sum-plus small_nodes join_all (λ c. c.root) two_nodes 2 nothing
      made.0 0 made.1 bank (bank_of (set_bank small_gen made.0.gen_balances bank))
      (λ bals. List.Perm.refl bals) refl made-init_nodes bank-set_bank

split-init_nodes_example :
    (length made.0.node_ids ≡ 2)
    × (split made.0.persistent_peers
        ≡ memos small_nodes join_all (λ c. c.root) two_nodes 0 made.0.node_ids)
unfolding made_of init_nodes init_node node_config memo_of account_coins make_account make_gentx
    write_file val_tokens lookup set_app_addresses itoa digits port port_of
split-init_nodes_example =
    split-init_nodes small_nodes join_all (λ c. c.root) two_nodes 2 nothing made.0 0 made.1 refl
      refl made-init_nodes refl refl (omega arith)
