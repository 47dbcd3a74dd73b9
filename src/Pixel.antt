-- ===== src/Pixel.antt =====
-- src/pixel_convert.c: detiling, pixel formats, and frame differences.
pub mod Tiling
pub mod Format
pub mod Half
pub mod Diff
