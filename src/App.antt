-- ===== src/App.antt =====
-- The application (app/): its configuration and wiring, genesis export and genesis accounts.
pub mod Run
pub mod Ended
pub mod Wiring
pub mod Export
pub mod GenesisAccount
mod Runs
