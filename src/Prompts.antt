-- ===== src/Prompts.antt =====
-- The prompts of a project and their versions (src/prompts).
pub mod Identifier
pub mod Validators
pub mod Versions
pub mod Service
pub mod Tables
pub mod Finding
pub mod Sound
pub mod Updates
pub mod Creation
pub mod History
pub mod Active
pub mod InUse
pub mod Addition
pub mod NewVersion
pub mod Saved
pub mod Promotion
