-- ===== src/Pool.antt =====
-- The loops over `transactions_list` that the generator, the miners and the validators share, and
-- the facts about them.
pub mod Entries
pub mod Counting
pub mod Ids
pub mod Invariant
