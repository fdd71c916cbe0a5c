-- ===== src/Validator.antt =====
-- validator.c: the check of a block, its way into the ledger, the removal of its transactions, their
-- ageing, the statistics that are sent, the number of validators, and the process from start to end.
pub mod Ledger
pub mod Check
pub mod Remove
pub mod Process
pub mod Chain
pub mod Log
pub mod Keep
pub mod Age
pub mod AgeLaws
pub mod Manage
pub mod ManageLaws
pub mod Race
pub mod PoolLaws
pub mod Tamper
pub mod Round
pub mod RoundLaws
pub mod Turn
pub mod Main
