-- ===== src/Projects.antt =====
-- The projects of an organisation (src/projects).
pub mod VisibilityRules
pub mod Membership
