-- ===== src/Traces.antt =====
-- Traces as the backends answer with them (src/traces): which of them a project may see, and which
-- of their attributes a user may see.
pub mod Attributes
pub mod Filter
pub mod Obfuscation
