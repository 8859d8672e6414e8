-- ===== src/Support.antt =====
-- The support library of lib/, which every process links.
pub mod Bitmap
pub mod Slots
pub mod RingBuffer
pub mod IndirectRingBuffer
pub mod CycleList
pub mod Text
pub mod Clock
pub mod Format
