-- ===== src/Mem.antt =====
-- src/mem: memory below the heap.
pub mod Frames
pub mod Gdt
