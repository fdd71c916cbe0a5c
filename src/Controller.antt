-- ===== src/Controller.antt =====
-- controller.c: the configuration, the shared memory at the start, the layout of the ledger in its
-- segment, the dump of the ledger, and the end of the program.
pub mod Start
pub mod StartLaws
pub mod Layout
pub mod Dump
pub mod DumpLaws
pub mod Signals
pub mod Lifecycle
pub mod LifecycleLaws
