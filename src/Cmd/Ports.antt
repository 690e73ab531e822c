-- ===== src/Cmd/Ports.antt =====
-- The ports that the configuration of the nodes listens on, by listener and node.
use tatcoin.Base.{
  ℕ, ◌+◌, ◌-◌, ◌*◌, ◌/◌, ◌%◌, ◌==◌, sym, ap, ◌∙◌, ◌^◌, ◌<◌, ◌≡◌, leb, if◌then◌else◌, arith,
}
use tatcoin.Cmd.Flags.{int_sub}

-- What a node listens on.
pub data Listener : Type 0 where
  p2p rpc proxy_app prometheus grpc api : Listener

-- The default port of the RPC, of gRPC and of the API, at node `i`.
abbrev pub default_rpc_port : ℕ → ℕ
default_rpc_port i = int_sub 26657 (3 * i)

abbrev pub grpc_port : ℕ → ℕ
grpc_port i = int_sub 9090 (2 * i)

abbrev pub api_port : ℕ → ℕ
api_port i = int_sub 1317 i

-- The port of a listener at node `i`, the RPC's being the default one.
unfoldable pub port : Listener → ℕ → ℕ
port p2p i = int_sub 26656 (3 * i)
port rpc i = default_rpc_port i
port proxy_app i = int_sub 26658 (3 * i)
port prometheus i = (26660 + i) % 2 ^ 64
port grpc i = grpc_port i
port api i = api_port i

-- Every port of the first 1317 nodes is a TCP port.
pub port-bounds : (a : Listener) (i : ℕ) → i < 1317 → (0 < port a i) × (port a i < 65536)
unfolding port
port-bounds p2p i h = ground arith
port-bounds rpc i h = ground arith
port-bounds proxy_app i h = ground arith
port-bounds prometheus i h = ground arith
port-bounds grpc i h = ground arith
port-bounds api i h = ground arith

-- The listener and the node that a port belongs to.
listener_of : ℕ → Listener
listener_of n =
    if leb 26660 n
    then prometheus
    else if leb 22000 n
    then if (26658 - n) % 3 == 0 then proxy_app else if (26658 - n) % 3 == 1 then rpc else p2p
    else if leb 5000 n
    then grpc
    else api

node_of : ℕ → ℕ
node_of n =
    if leb 26660 n
    then n - 26660
    else if leb 22000 n
    then (26658 - n) / 3
    else if leb 5000 n
    then (9090 - n) / 2
    else 1317 - n

listener_of-port : (a : Listener) (i : ℕ) → i < 1317 → listener_of (port a i) ≡ a
unfolding port listener_of
listener_of-port p2p i h = ground arith
listener_of-port rpc i h = ground arith
listener_of-port proxy_app i h = ground arith
listener_of-port prometheus i h = ground arith
listener_of-port grpc i h = ground arith
listener_of-port api i h = ground arith

node_of-port : (a : Listener) (i : ℕ) → i < 1317 → node_of (port a i) ≡ i
unfolding port node_of
node_of-port p2p i h = ground arith
node_of-port rpc i h = ground arith
node_of-port proxy_app i h = ground arith
node_of-port prometheus i h = ground arith
node_of-port grpc i h = ground arith
node_of-port api i h = ground arith

-- With the default RPC ports, no two listeners of the first 1317 nodes share a port, be they of one
-- node or of two: a port tells the listener and the node.
pub port-injective :
    (a b : Listener) (i j : ℕ) → i < 1317 → j < 1317 → port a i ≡ port b j → (a ≡ b) × (i ≡ j)
port-injective a b i j hi hj e = (
  sym (listener_of-port a i hi) ∙ ap listener_of e ∙ listener_of-port b j hj,
  sym (node_of-port a i hi) ∙ ap node_of e ∙ node_of-port b j hj,
)
