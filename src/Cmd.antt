-- ===== src/Cmd.antt =====
-- cmd/tatcoind/cmd/testnet_multi_node.go: the files of a local testnet.
pub mod Flags
pub mod Ports
pub mod Tables
pub mod Stakes
pub mod Collect
pub mod Paths
mod Runs
pub mod Canonical
pub mod Copies
pub mod NodeSdk
pub mod Nodes
pub mod GenFiles
pub mod Testnet
pub mod Rounds
pub mod Supply
pub mod Safe
pub mod Commas
pub mod Peers
mod Local
mod LocalRuns
pub mod MultiNode
pub mod Commands
pub mod Root
pub mod InPlace
