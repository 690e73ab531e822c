-- ===== src/Proto.antt =====
-- The generated protobuf code of x/tatcore/types (the *.pb.go files).
pub mod Result
pub mod Wire
pub mod Varint
pub mod Emit
pub mod Message
pub mod Params
pub mod Tx
pub mod Query
pub mod Genesis
pub mod Module
pub mod Totality
mod Runs
