-- ===== src/Kheap.antt =====
-- memory/heap.c: the kernel heap. Blocks tile the mapped range; each starts with a header of 32
-- bytes. The payload bytes are not part of the heap's state, but of the memory that kcalloc and
-- krealloc work on.
pub mod Blocks
pub mod Cells
pub mod Invariant
pub mod Joined
pub mod Join
pub mod Expand
pub mod Alloc
mod Examples
