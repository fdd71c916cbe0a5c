-- ===== src/Pow.antt =====
-- pow.c: the serialisation of a block, its hash, the difficulty test, the check of a nonce and the
-- search for one. `Serialize` to `Search` follow the code; the others are proofs.
pub mod Serialize
pub mod Hash
pub mod Layout
pub mod Difficulty
pub mod Search
pub mod Binding
pub mod Sound
