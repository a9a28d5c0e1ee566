-- ===== src/Rbac.antt =====
-- Role-based access control (src/rbac).
pub mod Permissions
pub mod Role
pub mod Grants
pub mod Retrieval
pub mod DefaultRole
pub mod Current
pub mod Consistency
pub mod Assignment
pub mod Membership
pub mod Authorize
pub mod Guards
pub mod Reads
pub mod Staleness
pub mod Validator
pub mod Roles
pub mod InstanceOwner
pub mod Seed
pub mod Onboarding
