-- ===== src/Planning.antt =====
-- planning.py: the mitigation modes and their triggers, plans, schema identity, and the questions
-- about the surroundings that planning and mitigation share.
pub mod Modes
pub mod Schema
pub mod Surroundings
pub mod Document
pub mod Create
pub mod Quiet
pub mod Reads
pub mod Accept
pub mod Harmless
