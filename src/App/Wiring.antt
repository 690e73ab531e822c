-- ===== src/App/Wiring.antt =====
-- The configuration of the app (app/app_config.go) and its construction (app/app.go, app/ibc.go).
pub mod Config
pub mod Names
pub mod Accounts
pub mod Blocked
pub mod IbcSdk
pub mod Ibc
pub mod Routes
pub mod Stores
pub mod Orders
pub mod Build
pub mod Versions
pub mod Client
pub mod Start
mod Small
mod Runs
