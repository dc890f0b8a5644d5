-- ===== src/Sys.antt =====
-- lsyslib.c: signals.
pub mod Signal
pub mod Iconv
pub mod Process
pub mod Calls
