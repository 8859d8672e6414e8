-- ===== src/Mm.antt =====
-- The memory server, mm/.
pub mod DoublebitMap
pub mod SmallMemHeader
pub mod Pages
