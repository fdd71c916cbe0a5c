-- ===== src/Miner.antt =====
-- miner.c: the choice and reservation of transactions, the block made of them and their return, the loop
-- of a thread, and the process with its threads.
pub mod Select
pub mod Block
pub mod ReserveLaws
pub mod SelectLaws
pub mod ReturnLaws
pub mod RestoreLaws
pub mod Accepted
pub mod Pipeline
pub mod Round
pub mod Mined
pub mod RoundLaws
pub mod RoundRestores
pub mod Thread
pub mod ThreadLaws
pub mod Main
