-- ===== src/Wire.antt =====
-- src/wire.h: the frames between library and helper, and the socket calls that carry them.
pub mod Stream
pub mod Descriptor
pub mod Command
pub mod Serve
