-- ===== src/Tests.antt =====
-- Runs of the modelled functions on small inputs.
mod Base
pub mod Pixel
pub mod OneShot
pub mod Convert
pub mod Cursor
pub mod Server
pub mod Target
pub mod Context
pub mod Grab
pub mod Wire
pub mod Diff
pub mod Helper
pub mod Display
