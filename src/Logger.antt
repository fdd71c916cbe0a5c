-- ===== src/Logger.antt =====
-- logger.c: the messages of a process on the terminal and in the log file.
pub mod Log
pub mod LogLaws
