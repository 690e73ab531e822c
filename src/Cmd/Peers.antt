-- ===== src/Cmd/Peers.antt =====
-- The persistent peers of the local testnet.
use tatcoin.Base.{
  ℕ, ◌+◌, ◌<◌, ◌≡◌, ◌≢◌, refl, sym, ap, ◌∙◌, List, [], ◌∷◌, ◌++◌, Bool, true, ◌&&◌, length, arith,
}
use tatcoin.App.Ended.{went_on}
use tatcoin.Cmd.Flags.{Text, split, itoa}
use tatcoin.Cmd.Ports.{Listener, port}
use tatcoin.Cmd.Collect.{Config, colon}
use tatcoin.Cmd.NodeSdk.{at_sign, InitArgs, NodeSdk}
use tatcoin.Cmd.Nodes.{Made, add_peer, memo_of, init_nodes}
use tatcoin.Cmd.Rounds.{Round, init_nodes-keeps}
use tatcoin.Cmd.Commas.{
  comma_free, comma_free-append, comma_free-itoa, split-append, split-comma_free,
}

-- Peers that are added one by one.
joined : Text → List Text → Text
joined peers [] = peers
joined peers (memo ∷ memos) = joined (add_peer peers memo) memos

joined-append :
    (peers : Text) (memos : List Text) (memo : Text)
    → joined peers (memos ++ (memo ∷ [])) ≡ add_peer (joined peers memos) memo
unfolding joined
joined-append peers [] memo = refl
joined-append peers (x ∷ memos) memo = joined-append (add_peer peers x) memos memo

abbrev pub all_comma_free : List Text → Bool
all_comma_free [] = true
all_comma_free (t ∷ ts) = comma_free t && all_comma_free ts

split-joined :
    (c : ℕ) (peers : Text) (memos : List Text)
    → all_comma_free memos ≡ true
    → split (joined (c ∷ peers) memos) ≡ split (c ∷ peers) ++ memos
unfolding joined
split-joined c peers [] h = sym (nothing_more (split (c ∷ peers)))
  where
    nothing_more : (xs : List Text) → xs ++ [] ≡ xs
    nothing_more [] = refl
    nothing_more (x ∷ xs) = ap (λ (ys : List Text). x ∷ ys) (nothing_more xs)
split-joined c peers (memo ∷ memos) h =
    let first : comma_free memo ≡ true = ground arith in
    let others : all_comma_free memos ≡ true = ground arith in
    split-joined c (peers ++ (44 ∷ memo)) memos others
    ∙ ap (λ (xs : List Text). xs ++ memos)
        (split-append (c ∷ peers) memo
          ∙ ap (λ (xs : List Text). split (c ∷ peers) ++ xs) (split-comma_free memo first))
    ∙ regroup (split (c ∷ peers))
  where
    regroup : (xs : List Text) → (xs ++ (memo ∷ [])) ++ memos ≡ xs ++ (memo ∷ memos)
    regroup [] = refl
    regroup (x ∷ xs) = ap (λ (ys : List Text). x ∷ ys) (regroup xs)

module _ {E W Rest AppRest Key Keyring Addr Algo Coin M T Account Bytes : Type 0}
    (sdk : NodeSdk E W Rest AppRest Key Keyring Addr Algo Coin M T Account Bytes)
    (join : List Text → Text) (genesis_file : Config Rest → Text) (args : InitArgs Coin) where
  -- The memos of nodes by their identifiers, from node `i` on.
  abbrev pub memos : ℕ → List Text → List Text
  memos i [] = []
  memos i (id ∷ ids) = memo_of sdk join genesis_file args id i ∷ memos (i + 1) ids

  memos-append :
      (i : ℕ) (ids : List Text) (id : Text)
      → memos i (ids ++ (id ∷ []))
        ≡ memos i ids ++ (memo_of sdk join genesis_file args id (i + length ids) ∷ [])
  memos-append i [] id = ap (λ k. memo_of sdk join genesis_file args id k ∷ []) (omega arith)
  memos-append i (x ∷ ids) id =
      ap (λ (ms : List Text). memo_of sdk join genesis_file args x i ∷ ms)
        (memos-append (i + 1) ids id
          ∙ ap (λ k. memos (i + 1) ids ++ (memo_of sdk join genesis_file args id k ∷ []))
              (omega arith))

  all_comma_free-memos :
      (i : ℕ) (ids : List Text)
      → comma_free args.starting_ip_address ≡ true
      → all_comma_free ids ≡ true
      → all_comma_free (memos i ids) ≡ true
  unfolding memo_of
  all_comma_free-memos i [] ip h = refl
  all_comma_free-memos i (id ∷ ids) ip h =
      let first : comma_free id ≡ true = ground arith in
      let others : all_comma_free ids ≡ true = ground arith in
      let here =
        comma_free-append id
          (at_sign ++ (args.starting_ip_address ++ (colon ++ itoa (port Listener.p2p i)))) first
          (comma_free-append args.starting_ip_address (colon ++ itoa (port Listener.p2p i)) ip
            (comma_free-itoa (port Listener.p2p i))) in
      ap (λ (b : Bool). b && all_comma_free (memos (i + 1) ids)) here
      ∙ all_comma_free-memos (i + 1) ids ip others

  -- The peers so far are the memos so far.
  abbrev Joined : ℕ → Made Rest AppRest Key Coin Account → Type 0
  Joined i m = (length m.node_ids ≡ i) × (m.persistent_peers ≡ joined [] (memos 0 m.node_ids))

  Joined-Round :
      (i : ℕ) (m m' : Made Rest AppRest Key Coin Account)
      → Round sdk join genesis_file args i m m'
      → Joined i m
      → Joined (i + 1) m'
  Joined-Round i m m' round (long, peers) = (
    ap length round.ids ∙ more m.node_ids ∙ ap (λ k. k + 1) long,
    round.peers
        ∙ ap (λ t. add_peer t memo) peers
        ∙ sym (joined-append [] (memos 0 m.node_ids) memo)
        ∙ ap (joined []) (
            ap
              (λ k. memos 0 m.node_ids ++ (memo_of sdk join genesis_file args round.node_id k ∷ []))
              (omega (arith, long))
            ∙ sym (memos-append 0 m.node_ids round.node_id)
            ∙ ap (memos 0) (sym round.ids)),
  )
    where
      memo : Text
      memo = memo_of sdk join genesis_file args round.node_id i

      more : (ids : List Text) → length (ids ++ (round.node_id ∷ [])) ≡ length ids + 1
      more [] = omega arith
      more (x ∷ ids) = omega (arith, more ids)

  split-memos :
      (ids : List Text)
      → comma_free args.starting_ip_address ≡ true
      → all_comma_free ids ≡ true
      → 0 < length ids
      → split (joined [] (memos 0 ids)) ≡ memos 0 ids
  unfolding memo_of joined
  split-memos [] ip h some_id = absurd (omega arith)
  split-memos (id ∷ ids) ip h some_id =
      go (memo_of sdk join genesis_file args id 0) refl (all_comma_free-memos 0 (id ∷ ids) ip h)
    where
      empty : (t u : Text) → t ++ (64 ∷ u) ≢ []
      empty [] u e = cc
      empty (x ∷ t) u e = cc

      go :
          (memo : Text)
          → memo_of sdk join genesis_file args id 0 ≡ memo
          → comma_free memo && all_comma_free (memos 1 ids) ≡ true
          → split (joined memo (memos 1 ids)) ≡ memo ∷ memos 1 ids
      go [] e free = absurd (empty id _ e)
      go (c ∷ memo) e free =
          let first : comma_free (c ∷ memo) ≡ true = ground arith in
          let others : all_comma_free (memos 1 ids) ≡ true = ground arith in
          split-joined c memo (memos 1 ids) others
          ∙ ap (λ (xs : List Text). xs ++ memos 1 ids) (split-comma_free (c ∷ memo) first)

  -- Where neither the starting IP address nor a node identifier has a comma, and there is a node: after
  -- the loop the persistent peers, split at the commas, are the memos of the nodes in their order.
  pub split-init_nodes :
      (n : ℕ) (m m' : Made Rest AppRest Key Coin Account) (w w' : W)
      → m.node_ids ≡ []
      → m.persistent_peers ≡ []
      → init_nodes sdk join genesis_file args n 0 m w ≡ went_on (m', w')
      → comma_free args.starting_ip_address ≡ true
      → all_comma_free m'.node_ids ≡ true
      → 0 < n
      → (length m'.node_ids ≡ n) × (split m'.persistent_peers ≡ memos 0 m'.node_ids)
  unfolding joined
  split-init_nodes n m m' w w' ids peers e ip free nodes =
      let (long, made) =
        init_nodes-keeps sdk join genesis_file args Joined Joined-Round n 0 m m' w w' e
          (ap length ids, peers ∙ ap (joined []) (ap (memos 0) (sym ids))) in
      let count : length m'.node_ids ≡ n = long ∙ omega arith in
      (count, ap split made ∙ split-memos m'.node_ids ip free (omega (arith, count)))
