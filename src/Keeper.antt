-- ===== src/Keeper.antt =====
-- The module x/tatcore: its keeper, message server, query server and genesis (x/tatcore/keeper), and
-- what x/tatcore/module makes of them.
pub mod Sdk
pub mod Server
pub mod AppModule
pub mod Handler
pub mod Gateway
pub mod Proxy
pub mod Updates
pub mod Built
pub mod History
pub mod Requests
pub mod Genesis
pub mod Stored
pub mod Services
pub mod Chain
pub mod Life
pub mod Reach
mod Runs
mod LifeRuns
