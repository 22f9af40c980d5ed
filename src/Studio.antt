-- ===== src/Studio.antt =====
-- studio/backend/src/relayna_studio: the control plane.
pub mod Availability
pub mod Incidents
