-- ===== src/Cmd/Rounds.antt =====
-- The rounds of `initTestnetFiles` that went on.
use tatcoin.Base.{ℕ, zero, suc, ◌+◌, ◌≡◌, refl, sym, ap, List, [], ◌∷◌, ◌++◌, arith}
use mathlib.Core.Path.{subst}
use tatcoin.App.Ended.{Ended, went_on, returned, panics}
use tatcoin.Cmd.Flags.{Text}
use tatcoin.Cmd.Collect.{Config, config_name}
use tatcoin.Cmd.NodeSdk.{Prog, then_run, try_clean, as_outcome, InitArgs, NodeSdk}
use tatcoin.Cmd.Nodes.{
  Made, add_peer, dir, clean, node_config, memo_of, account_coins, make_account, make_gentx,
  init_node, init_nodes,
}

-- What a program that went on did first, and what it did then.
pub then_run-eq-went_on :
    {E W A B : Type 0} (r : Ended (E × W) (A × W)) (next : A → Prog E W B) {out : B × W}
    → then_run next r ≡ went_on out
    → (a : A) × (w : W) × (r ≡ went_on (a, w)) × (next a w ≡ went_on out)
then_run-eq-went_on (went_on (a, w)) next whole = (a, w, refl, whole)
then_run-eq-went_on (returned e) next whole = cc
then_run-eq-went_on panics next whole = cc

pub went_on_pair :
    {E A W : Type 0} {a b : A} {v w : W}
    → ◌≡◌ {A = Ended E (A × W)} (went_on (a, v)) (went_on (b, w))
    → a ≡ b
went_on_pair {a = a} e = cc

module _ {E W Rest AppRest Key Keyring Addr Algo Coin M T Account Bytes : Type 0}
    (sdk : NodeSdk E W Rest AppRest Key Keyring Addr Algo Coin M T Account Bytes)
    (join : List Text → Text) (genesis_file : Config Rest → Text) (args : InitArgs Coin) where
  -- What a round adds.
  pub record Round (i : ℕ) (m m' : Made Rest AppRest Key Coin Account) : Type 0 where
    pub node_id : Text
    pub key : Key
    pub address : Text
    pub file : Text
    pub ids : m'.node_ids ≡ m.node_ids ++ (node_id ∷ [])
    pub keys : m'.val_pub_keys ≡ m.val_pub_keys ++ (key ∷ [])
    pub balances :
        m'.gen_balances
        ≡ m.gen_balances
          ++ (record { address = address; coins = account_coins sdk join genesis_file args } ∷ [])
    pub files : m'.gen_files ≡ m.gen_files ++ (file ∷ [])
    pub peers :
        m'.persistent_peers
        ≡ add_peer m.persistent_peers (memo_of sdk join genesis_file args node_id i)

  init_node-Round :
      (i : ℕ) (m m' : Made Rest AppRest Key Coin Account) (w w' : W)
      → init_node sdk join genesis_file args i m w ≡ went_on (m', w')
      → Round i m m'
  unfolding init_node
  init_node-Round i m m' w w' e =
      let (_, w1, e1, f1) =
        then_run-eq-went_on
          (try_clean (clean sdk join genesis_file args)
            (λ x.
              as_outcome
                (sdk.mkdir_all (join (dir sdk join genesis_file args i ∷ config_name ∷ [])) x))
            w)
          _ e in
      let config = node_config sdk join genesis_file args i m.config in
      let ((node_id, key), w2, e2, f2) =
        then_run-eq-went_on
          (try_clean (clean sdk join genesis_file args) (sdk.initialize_node_validator_files config)
            w1)
          _ f1 in
      let ((kb, addr), w3, e3, f3) =
        then_run-eq-went_on (make_account sdk join genesis_file args i w2) _ f2 in
      let (_, w4, e4, f4) =
        then_run-eq-went_on (make_gentx sdk join genesis_file args i node_id key kb addr _ w3) _
          f3 in
      let whole = went_on_pair f4 in
      record {
        node_id = node_id;
        key = key;
        address = sdk.addr_text addr;
        file = genesis_file (node_config sdk join genesis_file args i m.config);
        ids = sym (ap (λ x. x.node_ids) whole);
        keys = sym (ap (λ x. x.val_pub_keys) whole);
        balances = sym (ap (λ x. x.gen_balances) whole);
        files = sym (ap (λ x. x.gen_files) whole);
        peers = sym (ap (λ x. x.persistent_peers) whole);
      }

  -- What each round keeps, the loop keeps.
  pub init_nodes-keeps :
      (P : ℕ → Made Rest AppRest Key Coin Account → Type 0)
      → ((i : ℕ) (m m' : Made Rest AppRest Key Coin Account) → Round i m m' → P i m → P (i + 1) m')
      → (n i : ℕ) (m m' : Made Rest AppRest Key Coin Account) (w w' : W)
      → init_nodes sdk join genesis_file args n i m w ≡ went_on (m', w')
      → P i m
      → P (i + n) m'
  unfolding init_nodes
  init_nodes-keeps P keep zero i m m' w w' e p =
      subst (λ k. P k m') (omega arith) (subst (P i) (went_on_pair e) p)
  init_nodes-keeps P keep (suc n) i m m' w w' e p =
      let (m1, w1, e1, f1) = then_run-eq-went_on (init_node sdk join genesis_file args i m w) _ e in
      subst (λ k. P k m') (omega arith)
        (init_nodes-keeps P keep n (i + 1) m1 m' w1 w' f1
          (keep i m m1 (init_node-Round i m m1 w w1 e1) p))
