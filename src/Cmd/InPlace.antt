-- ===== src/Cmd/InPlace.antt =====
-- cmd/tatcoind/cmd/testnet.go: the in-place testnet, which replaces the validators of a chain.
pub mod Sdk
pub mod Args
pub mod Init
pub mod Parsed
pub mod Steps
pub mod Store
pub mod Fund
mod Small
mod Runs
