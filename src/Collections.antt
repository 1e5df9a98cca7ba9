-- ===== src/Collections.antt =====
-- The containers of core/tachyon.collections and include/tachyon.collections.
pub mod BitMap
pub mod LinkedList
