-- ===== src/Wire.antt =====
-- The named pipe between the miners and the validators: `send_block_to_validator` of miner.c, and
-- the reading of a block in `validator_main` of validator.c.
pub mod Send
pub mod Read
pub mod ReadLaws
pub mod Parse
pub mod RoundTrip
pub mod SendLaws
pub mod Sendable
pub mod Delivery
pub mod Accepts
pub mod Interleaved
