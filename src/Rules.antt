-- ===== src/Rules.antt =====
-- The rules of the janitor bot: platform-services/janitor-bot/src/rules and src/event.
pub mod Types
pub mod Texts
pub mod Requires
pub mod Event
pub mod Schema
pub mod Clients
pub mod Cache
pub mod Leaf
pub mod Match
pub mod Sort
pub mod Run
pub mod Command
mod Samples
pub mod Resolve
