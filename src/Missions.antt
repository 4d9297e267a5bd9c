-- ===== src/Missions.antt =====
-- Missions: the entries that wait for a setup, and the closes at the end of their plans.
pub mod Armed
pub mod Closes
