-- ===== src/Codec.antt =====
-- The wire formats of package codec.
pub mod Wire
pub mod Stream
pub mod Proto
pub mod MsgPack
pub mod Simd
pub mod Ws
pub mod Reader
pub mod Json
