-- ===== src/Flags.antt =====
-- The feature flags: crates/feature-flag and platform-services/feature-flags.
pub mod Json
pub mod Model
pub mod Engine
pub mod Wire
pub mod Convert
pub mod Names
pub mod Validate
pub mod Plan
pub mod Local
pub mod Remote
pub mod Client
pub mod Bulk
pub mod Equal
pub mod Manager
pub mod Samples
mod Tests
