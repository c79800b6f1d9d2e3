-- ===== src/Cli.antt =====
-- src/cli: the argument parser.
pub mod ArgParse
