-- ===== src/Mempool.antt =====
-- The slab allocator of src/memory/mempool.c and mempool.h.
pub mod Align
pub mod Order
pub mod Slab
pub mod Pool
pub mod Alloc
pub mod Free
pub mod Create
pub mod Geometry
pub mod Lending
mod Tests
