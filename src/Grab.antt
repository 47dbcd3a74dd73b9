-- ===== src/Grab.antt =====
-- src/drm_grab.c: the plane that is captured, the bounds on untrusted geometry, the destination of
-- converted pixels, the scanned-out width, the one-shot grab and the cache of the fast path.
pub mod Geometry
pub mod Target
pub mod Output
pub mod Scanout
pub mod Fast
pub mod Process
pub mod OneShot
pub mod Convert
