-- ===== src/Miner/Main.antt =====
-- `miner_main` of miner.c and the threads that it creates.
pub mod Steps
pub mod Count
pub mod Ready
pub mod Ending
pub mod Liveness
pub mod Whole
