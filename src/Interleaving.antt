-- ===== src/Interleaving.antt =====
-- Validators (validator.c), threads of the miner (miner.c) and generators (txgen.c) whose calls overlap:
-- each section under a mutex, and each test outside of one, is a step of its own.
pub mod Steps
pub mod Sequential
pub mod Sound
pub mod Capacity
pub mod Miners
pub mod Whole
