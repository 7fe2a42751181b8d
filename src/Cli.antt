-- ===== src/Cli.antt =====
-- The command line, crates/gabriel-cli.
pub mod Curl
mod Tests
