-- ===== src/Cli.antt =====
-- cli/src: the commands of the agent that have logic of their own.
pub mod Dns
pub mod Connect
pub mod Commands
mod Tests
