-- ===== src/Derive.antt =====
-- packages/dappdata/src/derive/: from a wallet's signature to keys.
pub mod Signature
pub mod Scalar
pub mod Message
pub mod Keys
mod Examples
