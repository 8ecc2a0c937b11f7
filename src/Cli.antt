-- ===== src/Cli.antt =====
-- The command line program (authvars_test/host/main.c).
pub mod Options
pub mod Command
pub mod Main
