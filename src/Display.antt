-- ===== src/Display.antt =====
-- src/drm_enumerate.c: refresh rates and the detection of a changed topology.
pub mod Refresh
pub mod Topology
