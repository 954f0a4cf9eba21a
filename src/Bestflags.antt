-- ===== src/Bestflags.antt =====
-- The search for good compiler flags (bestflags).
pub mod Flags
pub mod Generation
pub mod Pipeline
