-- ===== src/Cmd/Safe/Collecting.antt =====
-- `collectGenFiles` does not panic where each node has an identifier and a key.
use tatcoin.Base.{
  ℕ, zero, suc, ◌+◌, ◌≤◌, ◌≡◌, ◌≢◌, refl, Option, none, some, List, length, get_elem?, arith,
}
use tatcoin.Keeper.Sdk.{Outcome, ok, err}
use tatcoin.Cmd.Flags.{Text}
use tatcoin.Cmd.Collect.{
  Config, Args, Tools, Collected, collected, failed, Progress, finish_node, write_node, read_node,
  index_node, collect_node, then_collect, collect_loop,
}
use tatcoin.Cmd.Safe.{get_elem?-length}

module _ {E W Rest Node Key Genesis J Time : Type 0}
    (tools : Tools E W Rest Node Key Genesis J Time) (args : Args) (peers : Text) (now : Time) where
  finish_node-≢-panics :
      (c : Config Rest) (s : J) (r : Option E × W)
      → finish_node tools args peers now c s r ≢ Collected.panics
  finish_node-≢-panics c s (none, w) = λ p. cc
  finish_node-≢-panics c s (some e, w) = λ p. cc

  write_node-≢-panics :
      (i : ℕ) (o : Option J) (r : Outcome E (J × Config Rest) × W)
      → write_node tools args peers now i o r ≢ Collected.panics
  write_node-≢-panics i o (err e, w) = λ p. cc
  write_node-≢-panics i o (ok (s, c), w) = finish_node-≢-panics _ _ _

  read_node-≢-panics :
      (i : ℕ) (c : Config Rest) (o : Option J) (node : Node) (key : Key) (w : W)
      (r : Outcome E Genesis)
      → read_node tools args peers now i c o node key w r ≢ Collected.panics
  read_node-≢-panics i c o node key w (err e) = λ p. cc
  read_node-≢-panics i c o node key w (ok g) = write_node-≢-panics i o _

  index_node-≢-panics :
      (i : ℕ) (c : Config Rest) (o : Option J) (w : W) (node : Option Node) (key : Option Key)
      → (x : Node) × (node ≡ some x)
      → (y : Key) × (key ≡ some y)
      → index_node tools args peers now i c o w node key ≢ Collected.panics
  index_node-≢-panics i c o w none key (x, e) there = cc
  index_node-≢-panics i c o w (some a) none here (y, e) = cc
  index_node-≢-panics i c o w (some a) (some b) here there = read_node-≢-panics i c o a b w _

  pub collect_loop-≢-panics :
      (nodes : List Node) (keys : List Key) (n i : ℕ) (p : Progress W Rest J)
      → i + n ≤ length nodes
      → i + n ≤ length keys
      → collect_loop tools args peers now nodes keys n i p ≢ Collected.panics
  unfolding collect_loop collect_node
  collect_loop-≢-panics nodes keys zero i p h k = λ e. cc
  collect_loop-≢-panics nodes keys (suc n) i p h k =
      go (collect_node tools args peers now nodes keys i p)
        (index_node-≢-panics i _ p.app_state p.files (get_elem? nodes i) (get_elem? keys i)
          (get_elem?-length nodes i (omega arith)) (get_elem?-length keys i (omega arith)))
        (λ q. collect_loop-≢-panics nodes keys n (i + 1) q (omega arith) (omega arith))
    where
      go :
          (r : Collected (E × W) (Progress W Rest J))
          → r ≢ Collected.panics
          → ((q : Progress W Rest J)
              → collect_loop tools args peers now nodes keys n (i + 1) q ≢ Collected.panics)
          → then_collect tools args peers now
              (collect_loop tools args peers now nodes keys n (i + 1))
              r
            ≢ Collected.panics
      go (collected q) here later = later q
      go (failed e) here later = λ x. cc
      go Collected.panics here later = λ x. here refl
