-- ===== src/Statistics.antt =====
-- statistics.c: what the Statistics process keeps for each miner, how a message changes it, what it
-- prints, and its run from start to end.
pub mod Record
pub mod RecordLaws
pub mod Print
pub mod Loop
pub mod LoopLaws
pub mod Whole
