-- ===== src/Common.antt =====
-- modules/common: types and helpers that the daemon's modules share.
pub mod LogTruncate
pub mod Bytes
pub mod AssetPath
pub mod Ids
pub mod Hex
pub mod Time
pub mod HeadHeader
mod Tests
