-- ===== src/Cmd/Canonical.antt =====
-- The genesis files that `collectGenFiles` writes (cmd/tatcoind/cmd/testnet_multi_node.go).
use tatcoin.Base.{
  ℕ, zero, suc, ◌+◌, arith, ◌≡◌, refl, sym, ◌∙◌, Option, none, some, List, [], ◌∷◌, ◌++◌, get_elem?,
}
use mathlib.Core.Path.{subst}
use tatcoin.Keeper.Sdk.{Outcome, ok, err}
use tatcoin.Cmd.Flags.{Text, itoa}
use tatcoin.Cmd.Collect.{
  Config, Args, Tools, Collected, collected, failed, panics, Progress, canonical, finish_node,
  write_node, read_node, index_node, collect_node, then_collect, collect_loop, collect_gen_files,
  set_addresses, GenesisFile, config_name, gentx_name, config_toml,
}

collected-injective :
    {E S : Type 0} {a b : S} → ◌≡◌ {A = Collected E S} (collected a) (collected b) → a ≡ b
collected-injective {a = a} e = cc

module _ {E W Rest Node Key Genesis J Time : Type 0}
    (tools : Tools E W Rest Node Key Genesis J Time) (args : Args) (peers : Text) (now : Time) where
  -- The config that a round of node `i` works with: its name and its directory are set.
  abbrev pub at_node : ℕ → Config Rest → Config Rest
  at_node i c = record c {
    moniker = args.node_dir_prefix ++ itoa i;
    root = tools.join (args.output_dir ∷ (args.node_dir_prefix ++ itoa i) ∷ []);
  }

  -- The directory of the gentx files of node `i`.
  abbrev pub gentx_path : ℕ → Text
  gentx_path i = tools.join (
      tools.join (args.output_dir ∷ (args.node_dir_prefix ++ itoa i) ∷ [])
      ∷ config_name
      ∷ gentx_name
      ∷ [])

  -- The files with the config written under its root.
  abbrev pub with_config : Config Rest → W → W
  with_config c w =
      tools.write_config_file (tools.join (c.root ∷ config_name ∷ config_toml ∷ [])) c w

  -- The genesis file of a config, with a state.
  abbrev pub genesis_of : Config Rest → J → GenesisFile J Time
  genesis_of c state = record {
    path = tools.genesis_file c;
    chain = args.chain_id;
    app_state = state;
    time = now;
  }

  module _ (nodes : List Node) (keys : List Key) where
    -- A round of node `i` from `p`: with the config at the directory of the node, its genesis file is
    -- read and the state is generated for its id and key; the config, with the addresses of the node, and
    -- then the genesis file with the canonical state are written without an error.
    pub data IsRound (i : ℕ) (p : Progress W Rest J) : Progress W Rest J → Type 0 where
      round :
          {node : Node} {key : Key} {genesis : Genesis} {node_state : J} {c : Config Rest}
          {w w' : W}
          → get_elem? nodes i ≡ some node
          → get_elem? keys i ≡ some key
          → tools.app_genesis_from_file (tools.genesis_file (at_node i p.config)) p.files
            ≡ ok genesis
          → tools.gen_app_state
              (at_node i p.config)
              args.chain_id
              (gentx_path i)
              node
              key
              genesis
              p.files
            ≡ (ok (node_state, c), w)
          → tools.export_genesis_file
              (genesis_of
                (set_addresses tools args peers now i c)
                (canonical p.app_state node_state))
              (with_config (set_addresses tools args peers now i c) w)
            ≡ (none, w')
          → IsRound i p (record {
            files = w';
            config = set_addresses tools args peers now i c;
            app_state = some (canonical p.app_state node_state);
          })

    -- The rounds of `n` nodes from node `i` on, one after the other.
    pub data Rounds : ℕ → ℕ → Progress W Rest J → Progress W Rest J → Type 0 where
      no_round : {i : ℕ} {p : Progress W Rest J} → Rounds i 0 p p
      rounds :
          {i n : ℕ} {p q r : Progress W Rest J}
          → IsRound i p q
          → Rounds (i + 1) n q r
          → Rounds i (suc n) p r

    finished :
        (i : ℕ) (p : Progress W Rest J) (node : Node) (key : Key) (genesis : Genesis)
        (node_state : J) (c : Config Rest) (w : W) (r : Option E × W) (q : Progress W Rest J)
        → get_elem? nodes i ≡ some node
        → get_elem? keys i ≡ some key
        → tools.app_genesis_from_file (tools.genesis_file (at_node i p.config)) p.files ≡ ok genesis
        → tools.gen_app_state
            (at_node i p.config)
            args.chain_id
            (gentx_path i)
            node
            key
            genesis
            p.files
          ≡ (ok (node_state, c), w)
        → tools.export_genesis_file
            (genesis_of (set_addresses tools args peers now i c) (canonical p.app_state node_state))
            (with_config (set_addresses tools args peers now i c) w)
          ≡ r
        → finish_node tools args peers now
            (set_addresses tools args peers now i c)
            (canonical p.app_state node_state)
            r
          ≡ collected q
        → IsRound i p q
    finished i p node key genesis node_state c w (none, w') q a b g h wrote e =
        subst (λ x. IsRound i p x) (collected-injective e) (round a b g h wrote)
    finished i p node key genesis node_state c w (some x, w') q a b g h wrote e = cc

    written :
        (i : ℕ) (p : Progress W Rest J) (node : Node) (key : Key) (genesis : Genesis)
        (r : Outcome E (J × Config Rest) × W) (q : Progress W Rest J)
        → get_elem? nodes i ≡ some node
        → get_elem? keys i ≡ some key
        → tools.app_genesis_from_file (tools.genesis_file (at_node i p.config)) p.files ≡ ok genesis
        → tools.gen_app_state
            (at_node i p.config)
            args.chain_id
            (gentx_path i)
            node
            key
            genesis
            p.files
          ≡ r
        → write_node tools args peers now i p.app_state r ≡ collected q
        → IsRound i p q
    written i p node key genesis (err x, w) q a b g h e = cc
    written i p node key genesis (ok (state, c), w) q a b g h e =
        finished i p node key genesis state c w _ q a b g h refl e

    read :
        (i : ℕ) (p : Progress W Rest J) (node : Node) (key : Key) (r : Outcome E Genesis)
        (q : Progress W Rest J)
        → get_elem? nodes i ≡ some node
        → get_elem? keys i ≡ some key
        → tools.app_genesis_from_file (tools.genesis_file (at_node i p.config)) p.files ≡ r
        → read_node tools args peers now i (at_node i p.config) p.app_state node key p.files r
          ≡ collected q
        → IsRound i p q
    read i p node key (err x) q a b g e = cc
    read i p node key (ok genesis) q a b g e = written i p node key genesis _ q a b g refl e

    indexed :
        (i : ℕ) (p : Progress W Rest J) (node : Option Node) (key : Option Key)
        (q : Progress W Rest J)
        → get_elem? nodes i ≡ node
        → get_elem? keys i ≡ key
        → index_node tools args peers now i (at_node i p.config) p.app_state p.files node key
          ≡ collected q
        → IsRound i p q
    indexed i p none key q a b e = cc
    indexed i p (some node) none q a b e = cc
    indexed i p (some node) (some key) q a b e = read i p node key _ q a b refl e

    collect_node-IsRound :
        (i : ℕ) (p q : Progress W Rest J)
        → collect_node tools args peers now nodes keys i p ≡ collected q
        → IsRound i p q
    unfolding collect_node
    collect_node-IsRound i p q e = indexed i p _ _ q refl refl e

    -- Inversion of a round before the others.
    then_collect-eq-collected :
        (next : Progress W Rest J → Collected (E × W) (Progress W Rest J))
        (r : Collected (E × W) (Progress W Rest J)) (q : Progress W Rest J)
        → then_collect tools args peers now next r ≡ collected q
        → (p : Progress W Rest J) × (r ≡ collected p) × (next p ≡ collected q)
    then_collect-eq-collected next (collected p) q e = (p, refl, e)
    then_collect-eq-collected next (failed x) q e = cc
    then_collect-eq-collected next panics q e = cc

    collect_loop-Rounds :
        (n i : ℕ) (p q : Progress W Rest J)
        → collect_loop tools args peers now nodes keys n i p ≡ collected q
        → Rounds i n p q
    unfolding collect_loop
    collect_loop-Rounds zero i p q e = subst (λ x. Rounds i 0 p x) (collected-injective e) no_round
    collect_loop-Rounds (suc n) i p q e =
        let (mid, first, rest) =
          then_collect-eq-collected _ (collect_node tools args peers now nodes keys i p) q e in
        rounds (collect_node-IsRound i p mid first) (collect_loop-Rounds n (i + 1) mid q rest)

    IsRound-state :
        (i : ℕ) (p q : Progress W Rest J) → IsRound i p q → (state : J) × (q.app_state ≡ some state)
    IsRound-state i p _ (round a b g h wrote) = (_, refl)

    -- A state that is there stays.
    IsRound-keeps :
        (i : ℕ) (p q : Progress W Rest J) (state : J)
        → p.app_state ≡ some state
        → IsRound i p q
        → q.app_state ≡ some state
    IsRound-keeps i p _ state e (round a b g h wrote) = rw e refl

    Rounds-keeps :
        (i n : ℕ) (p q : Progress W Rest J) (state : J)
        → p.app_state ≡ some state
        → Rounds i n p q
        → q.app_state ≡ some state
    Rounds-keeps i _ p _ state e no_round = e
    Rounds-keeps i _ p r state e (rounds {n = n} {q = q} one rest) =
        Rounds-keeps (i + 1) n q r state (IsRound-keeps i p q state e one) rest

    -- What the rounds are around the one of node `i + k`.
    abbrev pub Around : ℕ → ℕ → ℕ → Progress W Rest J → Progress W Rest J → Type 0
    Around i n k p q =
        (before after : Progress W Rest J) × Rounds i k p before
        × IsRound (i + k) before after
        × Rounds (i + k + 1) n after q
        × (after.app_state ≡ q.app_state)

    Rounds-Around :
        (i n k m : ℕ) (p q : Progress W Rest J) → m ≡ k + suc n → Rounds i m p q → Around i n k p q
    Rounds-Around i n k _ p _ e no_round = absurd (omega arith)
    Rounds-Around i n zero _ p q e (rounds {n = m} {q = mid} one rest) =
        let left : m ≡ n = omega arith in
        let (state, got) = IsRound-state i p mid one in
        let here : i + 0 ≡ i = omega arith in
        (
          p,
          mid,
          no_round,
          rw here one,
          rw (here, ← left) rest,
          got ∙ sym (Rounds-keeps (i + 1) m mid q state got rest),
        )
    Rounds-Around i n (suc k) _ p q e (rounds {n = m} {q = mid} one rest) =
        let left : m ≡ k + suc n = omega arith in
        let (before, after, earlier, this, later, same) =
          Rounds-Around (i + 1) n k m mid q left rest in
        let here : i + suc k ≡ i + 1 + k = omega arith in
        (before, after, rounds one earlier, rw here this, rw here later, same)

    -- Where the generating of a state keeps the root of the config: if the collecting ends without an
    -- error or a panic, then for each node there was its round, after those of the nodes before it and
    -- before those of the others; its config and its genesis file were written under the directory of
    -- that node, the genesis file with the chain and the time given and with the state that the
    -- collecting ends with, the same for all nodes.
    pub collect_gen_files-IsRound :
        (c : Config Rest) (w : W) (p : Progress W Rest J) (i n : ℕ)
        → ((c c' : Config Rest) (chain dir : Text) (node : Node) (key : Key) (g : Genesis)
              (w w' : W) (state : J)
            → tools.gen_app_state c chain dir node key g w ≡ (ok (state, c'), w')
            → c'.root ≡ c.root)
        → args.num_validators ≡ i + suc n
        → collect_gen_files tools args peers now nodes keys c w ≡ collected p
        → (before after : Progress W Rest J) × Rounds 0 i
            (record { files = w; config = c; app_state = none })
            before
          × IsRound i before after
          × Rounds (i + 1) n after p
          × (after.config.root
              ≡ tools.join (args.output_dir ∷ (args.node_dir_prefix ++ itoa i) ∷ []))
          × (after.app_state ≡ p.app_state)
    unfolding collect_gen_files set_addresses
    collect_gen_files-IsRound c w p i n keeps many e =
        let start : 0 + i ≡ i = omega arith in
        let all =
          collect_loop-Rounds args.num_validators 0
            (record { files = w; config = c; app_state = none }) p e in
        let (before, after, earlier, this, later, same) = Rounds-Around 0 n i _ _ p many all in
        let this' = rw start at this in
        (before, after, earlier, this', rw start at later, at_root this', same)
      where
        at_root :
            {before after : Progress W Rest J}
            → IsRound i before after
            → after.config.root
              ≡ tools.join (args.output_dir ∷ (args.node_dir_prefix ++ itoa i) ∷ [])
        at_root (round a b g h wrote) = keeps _ _ _ _ _ _ _ _ _ _ h
