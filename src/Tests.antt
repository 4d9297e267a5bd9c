-- ===== src/Tests.antt =====
-- The theorems of the development at concrete inputs, by the part that they are about.
pub mod Accounts
pub mod Amounts
pub mod Bot
pub mod Commands
pub mod Goals
pub mod Missions
pub mod Exchange
