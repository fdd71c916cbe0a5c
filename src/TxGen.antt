-- ===== src/TxGen.antt =====
-- txgen.c: the transactions that the generator makes, their way into the pool, and the process.
pub mod Generate
pub mod GenerateLaws
pub mod Loop
pub mod LoopLaws
pub mod Whole
pub mod Add
pub mod AddLaws
