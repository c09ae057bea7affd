-- ===== src/Irc.antt =====
-- ircserver.c: the IRC miniserver.
pub mod Samples
mod Tests
pub mod Message
pub mod Split
pub mod Server
pub mod Handlers
pub mod Commands
pub mod Driver
