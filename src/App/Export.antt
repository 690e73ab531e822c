-- ===== src/App/Export.antt =====
-- app/export.go and `appExport` of cmd/tatcoind/cmd/commands.go. The keepers of the Cosmos SDK are
-- the fields of `Sdk`: each works on the store of its own module. An iteration of a keeper is the
-- list that it visits; an error of the iteration itself shows when the list is asked for.
pub mod Sdk
pub mod Defs
pub mod Exported
pub mod Validators
pub mod Height
pub mod Resets
pub mod ZeroHeight
pub mod Prepared
pub mod Pool
pub mod Command
mod Runs
mod Ledger
