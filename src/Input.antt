-- ===== src/Input.antt =====
-- The keyboard and the game controller, frontend/input.c: pad bits, and the filter of key events
-- that a controller's driver doubles.
pub mod Pad
pub mod Filter
pub mod Clean
