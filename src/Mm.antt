-- ===== src/Mm.antt =====
-- kernel/src/mm: physical pages, address translation, the kernel heap.
pub mod Address
pub mod Pmm
pub mod Heap
pub mod Vmm
