-- ===== src/Dr.antt =====
-- The drivers (dr): the keyboard.
pub mod Keyboard
