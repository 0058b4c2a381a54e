-- ===== src/Lib.antt =====
-- Verification of limix, a small x86-64 kernel and its C library libk.
--
-- The kernel gets its memory in layers. kernel/src/mm/pmm.c takes the boot loader's memory map and
-- keeps a list of free runs of physical pages; kernel/src/mm/heap.c gets pages from it, maps them at
-- the top of the heap and hands out blocks from a doubly linked list of segments. The functions on
-- bytes and strings that all of the kernel uses are in libk/src/utils, and
-- kernel/src/config/config.c keeps its variables in blocks of the heap.
--
-- Files:
--
-- Base.antt and Base/: names of the standard library, Boolean tests, lists over the native numbers,
-- bit fields, and Run, the outcome of code that can panic or loop.
--
-- Libk/Memory.antt: kmemcpy, kmemmove, kmemset and kmemcmp of
-- libk/src/utils/memory/{memcpy,memmove,memset,memcmp}.c over a memory from addresses to bytes. The
-- loops over words run on fuel; each round lowers `count` by the width of a word, so `count` rounds
-- are enough. Word, Copy, Move, Fill and Compare hold the proofs.
--
-- Libk/Strings.antt: kstrlen, kstrnext, kstrncmp, kstrnlcmp and reverse of
-- libk/src/utils/string/{strlen,strnext,strncmp,strnlcmp,reverse}.c over the same memory. A search for
-- the end of a string runs on fuel, one round for each byte and one for the 0. Ntos is ntos.c, whose
-- loop runs at most `length` rounds. Text, Equal, Reverse and Digits hold the proofs.
--
-- Libk/Ipc.antt: libk/src/kipc/semaphore/{block_on,block_on_count,unblock}.c as steps of any number of
-- threads and handlers. The `+=` and the `-=` of the counter are a load and a store, each a step of its
-- own, so that two of them can interleave and lose a change; a run counts such stores. Every turn of a
-- loop reads the counter, as the source says, whatever a compiler makes of it. Balance holds the proof.
--
-- Libk/Crypt.antt: libk/src/crypt/{crc32,rand}.c. Crc32 holds the proof, with Base/Xor.antt.
--
-- Mm/Address.antt: mm_fix, mm_is_physical and mm_is_virtual of kernel/src/mm/mm.c.
--
-- Mm/Pmm.antt: kernel/src/mm/pmm.c. The array memory_tags with memory_tag_count is a list. A loop
-- over the array is structural recursion; _fix_memtags calls itself while something changed, and
-- each change removes a tag, so one more round than tags is enough. Page numbers and lengths are i64 in
-- the source and 64-bit patterns here: free_pages shifts with the sign, and request_pages of a count
-- from 2^63 on takes it for negative. Mm/Pmm/Init.antt is pmm_init over the entries of the Limine
-- memory map. Tags, Settled, Valid, Request, Release and Init/Sound hold the proofs.
--
-- Mm/Heap.antt: the segments of kernel/src/mm/heap.c with _heap_combine_forward,
-- _heap_combine_backward, _heap_split and kfree. Mm/Heap/Alloc.antt: heap_init, expand_heap and
-- kmalloc, over an interface `Pages` for request_page, request_pages and vmm_map. The loop of
-- kmalloc runs on fuel: a segment takes up at least its header, so there are at most
-- (top - first) / 48 of them. kmalloc calls itself after expand_heap, at most once where the pages
-- are granted; the model allows one such call. Chain describes the headers by a list of blocks,
-- Blocks says what freeing, first fit and growing do to that list, and the other files prove that
-- the code does that. Usage.antt adds kcalloc, kzalloc and the counters, and Wrap.antt clone, krealloc and
-- to_xstr of libk/src/utils/{heap,xstr}.
--
-- Mm/Vmm.antt: kernel/src/mm/vmm.c. The tables are reached through the entry of the top table that names
-- itself, and mmu_page is what the processor makes of a virtual address: four levels of entries with a
-- present bit, a bit for large pages and the address in bits 12 to 51. A write also asks that all four
-- allow writes. Fractal, Map and Start hold
-- the proofs.
--
-- Config.antt: kernel/src/config/config.c. The linked list of variables is a list, and what the code
-- leaves uninitialised is an argument. Lookup and SetGet hold the proofs.
--
-- Gfx/Drm.antt: kernel/src/gfx/drm/drm.c as built with DRM_WRITETHROUGH: pixels and rectangles on the
-- screen or in the buffer of a drm. Char has the characters, Line the lines and circles in 32-bit
-- arithmetic, Device the set-up, clearing, switching and the device file, Register the device of each
-- drm. Loops are structural recursion on the rounds that are left; that of a circle runs on fuel, and
-- as many rounds as the radius are enough. Draws says what a drawing operation does to the pixels and
-- that two in a row compose; Pixel, Rect, Glyph, Transfer, Walk, Rounds, Straight and Circle hold
-- the other proofs.
--
-- Gfx/Ansi.antt: the colours and the parser of kernel/src/gfx/vt/ansi.c. Gfx/Vt.antt:
-- kernel/src/gfx/vt/vt.c, the terminal, which draws on a drm. The buffer is a function from cell numbers.
-- Page is the terminal seen as a page of cells. Print, Bounds and Text hold the proofs on printing,
-- Cursor their lemmas, and Screen the proof on redraws.
--
-- Hw/Devman.antt: kernel/src/hw/devman/devman.c. Arrays of pointers are lists of slots, and the calls of
-- drivers are values. How much room kmalloc leaves in a block is a parameter, since the code writes
-- past the size that it asks krealloc for. Drivers, Tables and Partitions hold the proofs.
--
-- Libk/Printing.antt: kvfprintf of libk/src/printing/kvprintf.c. Its buffer is the text so far and the
-- size of the block; the local buffer for numbers lies in the memory of Libk/Memory. A round of
-- _string_op adds 16 bytes, so as many rounds as bytes are enough. For %w, where ntos writes behind
-- its array of four bytes, the outcome is a write past an array. Format holds the proof.
--
-- Fs/Vfs.antt: kernel/src/fs/vfs.c. A directory is a tree of directories and files, and strings are lists
-- of bytes. The part of the path that clone copies has no 0 of its own where 16 divides its length;
-- what stands behind it there is an argument. Each round of a search passes a separator, so one more
-- round than bytes is enough. Spec says what a path names, Mount, Paths, Search and Find hold the
-- proofs. Fs/Devfs.antt: kernel/src/fs/devfs.c, with the blocks that it has freed;
-- a reload with no devices panics, since kmalloc of 0 bytes gives a null pointer. Reload holds the
-- proofs.
--
-- Fs/Gpt.antt: kernel/src/fs/gpt.c, which devman_add_storage calls at its end. The function of the
-- driver is a parameter, and the pages for the header and the entries are given. Attached and
-- Entries hold the proof, from a driver that reads sectors of a disk.
--
-- Hw/Pci.antt: kernel/src/hw/pci/{pci_access,enumerate}.c and kernel/src/hw/pcie/pcie.c. The devices are
-- functions from addresses to what they answer, and the three nested loops are a list of places in
-- their order. Enumerate counts and
-- searches. Texts, Names and Registry are kernel/src/hw/pci/pci_name.c; the loop over a registry
-- runs on fuel, one round for each entry and one more. Access, Regions, Search, Arrays and Entries
-- hold the proofs.
--
-- Hw/Ports.antt: an interface for the machine behind the instructions of kernel/src/io/pio.c.
-- Hw/Pic.antt: kernel/src/hw/cpu/pic.c over it. Bits looks all bytes up, and Masks holds the proof, from
-- what the controllers do with their mask registers.
-- Hw/Kb.antt: kernel/src/hw/hid/kb/kb.c, the keys that are down and the modifiers; Mods reads their bits.
-- Hw/Ps2.antt: kernel/src/hw/hid/ps2.c over the ports. Each loop that waits runs on fuel. Device
-- describes a controller that takes every command at once, for which one round is enough, and as many
-- rounds as bytes and one more where old bytes are cleared; Start holds the proof.
--
-- Int/Idt.antt: kernel/src/int/idt.c with isr_init of kernel/src/int/isr.c and irq_attach of
-- kernel/src/hw/cpu/irq.c. Vectors holds the proof. Int/Irq.antt: the handlers of
-- kernel/src/hw/cpu/irq.c over the interrupt controllers; Dispatch holds the proof.
--
-- Not modelled: the spinlocks, which order whole calls; log lines;
-- kernel_panic_error, which does not return and is a result here; the storage
-- controllers, the global descriptor table, VGA text and the start-up code.
mod Base
pub mod Libk
pub mod Mm
pub mod Config
pub mod Gfx
pub mod Hw
pub mod Fs
pub mod Int
