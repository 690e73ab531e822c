-- ===== src/Cmd/Safe/Whole.antt =====
-- `initTestnetFiles` does not panic on an index.
use mathlib.Core.Path.{subst}
use tatcoin.Base.{
  ℕ, zero, suc, ◌+◌, ◌^◌, ◌<◌, ◌≤◌, ◌≡◌, ◌≢◌, refl, ap, List, [], ◌∷◌, ◌++◌, length, Bool, true,
  false, leb, not, ◌||◌, if◌then◌else◌, arith,
}
use tatcoin.App.Ended.{Ended, went_on, returned, panics}
use tatcoin.Cmd.Flags.{Text}
use tatcoin.Cmd.Collect.{
  Config, config_name, gentxs_dir, Tools, Collected, collected, failed, Progress, collect_gen_files,
}
use tatcoin.Cmd.Paths.{Os, copy_gentxs}
use tatcoin.Cmd.NodeSdk.{Prog, then_run, as_outcome, InitArgs, AppConfig, NodeSdk}
use tatcoin.Cmd.Nodes.{
  Made, dir, dir_name, gentxs_path, clean, node_config, memo_of, val_tokens, write_file,
  make_account, make_gentx, init_node, init_nodes,
}
use tatcoin.Cmd.GenFiles.{GenSdk}
use tatcoin.Cmd.Rounds.{Round, init_nodes-keeps}
use tatcoin.Cmd.Safe.{Safe, Safe->>=, Safe-try_clean, Safe-try_step, IsCalm, Safe-init_gen_files}
use tatcoin.Cmd.Testnet.{
  ended_of, with_chain, set_app_config, nothing_made, finish_testnet, make_testnet,
  init_testnet_files,
}
use tatcoin.Cmd.Safe.Collecting.{collect_loop-≢-panics}

module _ {E W Rest AppRest Key Keyring Addr Algo Coin M T Account Bytes : Type 0}
    (sdk : NodeSdk E W Rest AppRest Key Keyring Addr Algo Coin M T Account Bytes)
    (join : List Text → Text) (genesis_file : Config Rest → Text) (args : InitArgs Coin) where
  Safe-write_file :
      (file dir : Text) (contents : Bytes)
      → Safe (write_file sdk join genesis_file args file dir contents)
  unfolding write_file
  Safe-write_file file dir contents =
      Safe->>= _ _ (Safe-try_step (λ w. as_outcome (sdk.mkdir_all dir w)))
        λ _. Safe-try_step (λ w. as_outcome (sdk.write_os_file file contents w))

  Safe-make_account : (i : ℕ) → Safe (make_account sdk join genesis_file args i)
  unfolding make_account
  Safe-make_account i =
      Safe->>= _ _
        (Safe-try_step (sdk.new_keyring args.keyring_backend (dir sdk join genesis_file args i)))
        λ kb. Safe->>= _ _ (Safe-try_step (λ w. (sdk.signing_algo args.algo kb, w))) λ algo.
          Safe->>= _ _
            (Safe-try_clean (clean sdk join genesis_file args)
              (sdk.generate_save_coin_key kb (dir_name sdk join genesis_file args i) algo))
            λ made.
              Safe->>= _ _ (Safe-try_step (λ w. (sdk.marshal_secret made.1, w)))
                λ cli_print. Safe->>= _ _ (Safe-write_file _ _ cli_print) λ _ w p. cc

  Safe-make_gentx :
      (i : ℕ) (id : Text) (key : Key) (kb : Keyring) (addr : Addr) (file : Text)
      → Safe (make_gentx sdk join genesis_file args i id key kb addr file)
  unfolding make_gentx
  Safe-make_gentx i id key kb addr file =
      let memo = memo_of sdk join genesis_file args id i in
      let made =
        sdk.new_msg_create_validator (sdk.val_addr_text addr) key
          (val_tokens sdk join genesis_file args i) (dir_name sdk join genesis_file args i) in
      Safe->>= _ _ (Safe-try_step (λ w. (made, w))) λ msg.
        Safe->>= _ _ (Safe-try_step (λ w. (sdk.set_msgs msg, w))) λ tx.
          Safe->>= _ _
            (Safe-try_step (λ w. (
              sdk.sign kb args.shared.chain_id memo (dir_name sdk join genesis_file args i)
                  (sdk.set_memo memo tx),
              w,
            )))
            λ signed.
              Safe->>= _ _ (Safe-try_step (λ w. (sdk.encode_json signed, w)))
                λ tx_bz. Safe-write_file file (gentxs_path sdk join genesis_file args i) tx_bz

  Safe-init_node :
      (i : ℕ) (m : Made Rest AppRest Key Coin Account)
      → Safe (init_node sdk join genesis_file args i m)
  unfolding init_node
  Safe-init_node i m =
      let config = node_config sdk join genesis_file args i m.config in
      Safe->>= _ _
        (Safe-try_clean (clean sdk join genesis_file args) (λ w.
          as_outcome
            (sdk.mkdir_all (join (dir sdk join genesis_file args i ∷ config_name ∷ [])) w)))
        λ _.
          Safe->>= _ _
            (Safe-try_clean (clean sdk join genesis_file args)
              (sdk.initialize_node_validator_files config))
            λ node. Safe->>= _ _ (Safe-make_account i) λ account.
              Safe->>= _ _ (Safe-make_gentx i node.0 node.1 account.0 account.1 _) λ _ w p. cc

  Safe-init_nodes :
      (n i : ℕ) (m : Made Rest AppRest Key Coin Account)
      → Safe (init_nodes sdk join genesis_file args n i m)
  unfolding init_nodes
  Safe-init_nodes zero i m = λ w p. cc
  Safe-init_nodes (suc n) i m = Safe->>= _ _ (Safe-init_node i m) λ m'. Safe-init_nodes n (i + 1) m'

  -- A slice for each node.
  abbrev Full : ℕ → Made Rest AppRest Key Coin Account → Type 0
  Full i m = (i ≤ length m.node_ids) × (i ≤ length m.val_pub_keys) × (i ≤ length m.gen_files)

  longer :
      {A : Type 0} (xs xs' : List A) (x : A) (i : ℕ)
      → xs' ≡ xs ++ (x ∷ [])
      → i ≤ length xs
      → i + 1 ≤ length xs'
  longer {A = A} xs xs' x i e h = omega (arith, ap length e, more xs)
    where
      more : (bs : List A) → length (bs ++ (x ∷ [])) ≡ length bs + 1
      more [] = omega arith
      more (c ∷ bs) = omega (arith, more bs)

  Full-Round :
      (i : ℕ) (m m' : Made Rest AppRest Key Coin Account)
      → Round sdk join genesis_file args i m m'
      → Full i m
      → Full (i + 1) m'
  Full-Round i m m' round (ids, keys, files) = (
    longer m.node_ids m'.node_ids round.node_id i round.ids ids,
    longer m.val_pub_keys m'.val_pub_keys round.key i round.keys keys,
    longer m.gen_files m'.gen_files round.file i round.files files,
  )

  Full-init_nodes :
      (n : ℕ) (m m' : Made Rest AppRest Key Coin Account) (w w' : W)
      → init_nodes sdk join genesis_file args n 0 m w ≡ went_on (m', w')
      → Full n m'
  Full-init_nodes n m m' w w' e =
      subst (λ k. Full k m') (omega arith)
        (init_nodes-keeps sdk join genesis_file args Full Full-Round n 0 m m' w w' e
          (omega arith, omega arith, omega arith))

module _ {E W Rest AppRest Key Keyring Addr Algo Coin M T Account Bytes : Type 0}
    (sdk : NodeSdk E W Rest AppRest Key Keyring Addr Algo Coin M T Account Bytes)
    {Genesis G Time : Type 0} (tools : Tools E W Rest Text Key Genesis G Time)
    {J Json GenRest AuthRest BankRest Packed : Type 0}
    (gen : GenSdk E W J Json GenRest AuthRest BankRest Account Packed Coin) {Contents : Type 0}
    (os : Os E W Contents) (calm : IsCalm gen) where
  Safe-finish_testnet :
      (args : InitArgs Coin) (now : Time) (m : Made Rest AppRest Key Coin Account)
      → args.shared.num_validators ≤ length m.node_ids
      → args.shared.num_validators ≤ length m.val_pub_keys
      → args.shared.num_validators ≤ length m.gen_files
      → Safe (finish_testnet sdk tools gen os args now m)
  unfolding finish_testnet collect_gen_files
  Safe-finish_testnet args now m ids keys files =
      Safe->>= _ _ (Safe-init_gen_files gen calm _ _ _ m.gen_files _ files) λ _.
        Safe->>= _ _
          (Safe-try_step (λ w. as_outcome (
            copy_gentxs os (λ i. gentxs_dir tools args.shared m.persistent_peers now i)
              m.gentxs_files args.shared.num_validators 0 w)))
          λ _ w.
            ended
              (collect_gen_files tools args.shared m.persistent_peers now m.node_ids m.val_pub_keys
                m.config w)
              (collect_loop-≢-panics tools args.shared m.persistent_peers now m.node_ids
                m.val_pub_keys args.shared.num_validators 0 _ (omega arith) (omega arith))
    where
      ended :
          (r : Collected (E × W) (Progress W Rest G)) → r ≢ Collected.panics → ended_of r ≢ panics
      ended (collected p) h = λ e. cc
      ended (failed e) h = λ p. cc
      ended Collected.panics h = λ p. h refl

  -- For a number of validators that is not negative and at most the length of the longest slice, and where no call of the SDK panics, the
  -- initialization ends in the files of the testnet or in an error, never in a panic: each slice that is
  -- indexed has an entry for each node.
  pub Safe-init_testnet_files :
      (max_slice : ℕ) (draws : List ℕ) (args : InitArgs Coin) (now : Time) (config : Config Rest)
      (app_config : AppConfig AppRest)
      → args.shared.num_validators < 2 ^ 63
      → args.shared.num_validators ≤ max_slice
      → Safe (init_testnet_files sdk tools gen os max_slice draws args now config app_config)
  unfolding init_testnet_files make_testnet
  Safe-init_testnet_files max_slice draws args now config app_config small room w = go _ refl
    where
      full : InitArgs Coin
      full = with_chain sdk tools gen os draws args

      rest : Made Rest AppRest Key Coin Account → Prog E W (Config Rest)
      rest m = finish_testnet sdk tools gen os full now m

      go :
          (b : Bool)
          → (leb (2 ^ 63) args.shared.num_validators
              || not (leb args.shared.num_validators max_slice))
            ≡ b
          → (if b then panics else make_testnet sdk tools gen os full now config app_config w)
            ≢ panics
      go true e = absurd (ground arith)
      go false e = made _ refl (Safe-init_nodes sdk tools.join tools.genesis_file full _ 0 _ w)
        where
          made :
              (r : Ended (E × W) (Made Rest AppRest Key Coin Account × W))
              → init_nodes sdk tools.join tools.genesis_file full args.shared.num_validators 0
                  (nothing_made sdk tools gen os config
                    (set_app_config sdk tools gen os full.min_gas_prices app_config))
                  w
                ≡ r
              → r ≢ panics
              → then_run rest r ≢ panics
          made (went_on (m, v)) e h =
              let (ids, keys, files) =
                Full-init_nodes sdk tools.join tools.genesis_file full _ _ m w v e in
              Safe-finish_testnet full now m ids keys files v
          made (returned x) e h = λ p. cc
          made panics e h = λ p. h refl
