-- ===== src/Mm/Heap.antt =====
-- kernel/src/mm/heap.c and kernel/include/mm/heap.h: the kernel heap, a doubly linked list of
-- segments, each a header followed by its bytes. The model keeps the headers by address; the bytes
-- of the blocks are not part of it. The heap lock orders whole calls, so calls are single steps.
-- usz and pointer arithmetic wraps at 2 ^ 64 as in the code.
pub mod Alloc
pub mod Chain
pub mod Blocks
pub mod Combine
pub mod Free
pub mod Split
pub mod Walk
pub mod Grow
pub mod Fit
pub mod Malloc
pub mod Expand
pub mod Start
pub mod Coalesced
pub mod RoundTrip
pub mod Reach
pub mod Usage
pub mod Wrap
mod Tests
use limix.Base.{
  ℕ, zero, suc, ◌+◌, ◌-◌, ◌*◌, ◌/◌, ◌%◌, ◌^◌, ◌==◌, ltb, leb, if◌then◌else◌, Bool, true, false, not,
  ◌&&◌, ◌||◌,
}
use limix.Base.Run.{Run, ok, panic, out_of_fuel, ◌>>=◌}

abbrev pub Ptr : Type 0
Ptr = ℕ

abbrev pub null : Ptr
null = 0

abbrev pub wrap : ℕ → ℕ
wrap x = x % 2 ^ 64

abbrev pub sub64 : ℕ → ℕ → ℕ
sub64 a b = (a + 2 ^ 64 - b) % 2 ^ 64

abbrev pub heap_base : Ptr
heap_base = 0xffff_fff8_0000_0000

abbrev pub heap_canary0 : ℕ
heap_canary0 = 0x6865_6170_6269_7264

abbrev pub heap_canary1 : ℕ
heap_canary1 = 0x6269_7264_6865_6170

-- `HeapSegment`, and `sizeof(HeapSegment)`.
pub record Segment : Type 0 where
  pub canary0 : ℕ
  pub size : ℕ
  pub prev : Ptr
  pub next : Ptr
  pub used : Bool
  pub canary1 : ℕ

abbrev pub header : ℕ
header = 48

-- The static variables of heap.c, and memory read as headers.
pub record Heap : Type 0 where
  pub cell : Ptr → Segment
  pub first : Ptr
  pub last : Ptr
  pub top : Ptr
  pub memory_free : ℕ
  pub memory_used : ℕ
  pub struct_overhead : ℕ

abbrev pub Cells : Type 0
Cells = Ptr → Segment

unfoldable pub write : Cells → Ptr → Segment → Cells
write c p s q = if q == p then s else c q

-- `_heap_check_canary`, which returns at a null pointer.
unfoldable pub canary_intact : Cells → Ptr → Bool
canary_intact c p = p == null || ((c p).canary0 == heap_canary0 && (c p).canary1 == heap_canary1)

-- The writes of _heap_combine_forward, once `n`, the segment behind `p`, is to be joined to it.
unfoldable pub absorb : Ptr → Ptr → Cells → Cells
unfolding write
absorb p n c =
    let after = (c n).next in
    let c1 : Cells = if after == null then c else write c after (record (c after) { prev = p }) in
    write c1 p
      (record (c1 p) { size = wrap ((c1 p).size + (c1 n).size + header); next = (c1 n).next })

unfoldable pub combine_forward : Ptr → Heap → Run Heap
combine_forward p h =
    let n = (h.cell p).next in
    let joined : Heap = record h {
      cell = absorb p n h.cell;
      last = if n == h.last then p else h.last;
      memory_free = wrap (h.memory_free + header);
      memory_used = sub64 h.memory_used header;
      struct_overhead = wrap (h.struct_overhead + header);
    } in
    if p == null
    then ok h
    else if not (canary_intact h.cell p)
    then panic
    else if n == null
    then ok h
    else if not (canary_intact h.cell n)
    then panic
    else if (h.cell n).used
    then ok h
    else if not (n == wrap (p + header + (h.cell p).size))
    then ok h
    else ok joined

unfoldable pub combine_backward : Ptr → Heap → Run Heap
combine_backward p h =
    let b = (h.cell p).prev in
    if p == null
    then ok h
    else if not (canary_intact h.cell p)
    then panic
    else if b == null
    then ok h
    else if not (canary_intact h.cell b)
    then panic
    else if (h.cell b).used
    then ok h
    else combine_forward b h

-- The writes of _heap_split for a rest of `split_size` bytes.
unfoldable pub cut : Ptr → ℕ → ℕ → Cells → Cells
unfolding write
cut p size split_size c =
    let q = wrap (p + size + header) in
    let after = (c p).next in
    let c1 : Cells = if after == null then c else write c after (record (c after) { prev = q }) in
    let c2 : Cells = write c1 q (record {
      canary0 = heap_canary0;
      size = split_size;
      prev = p;
      next = (c1 p).next;
      used = (c1 p).used;
      canary1 = heap_canary1;
    }) in
    write c2 p (record (c2 p) { next = q; size = size })

-- `_heap_split` at a segment that is not null.
unfoldable pub heap_split : Ptr → ℕ → Heap → Run Heap
heap_split p size h =
    let split_size = sub64 (sub64 (h.cell p).size size) header in
    if not (canary_intact h.cell p)
    then panic
    else if ltb size 0x10
    then ok h
    else if ltb split_size 0x10
    then ok h
    else ok (record h {
      cell = cut p size split_size h.cell;
      last = if h.last == p then wrap (p + size + header) else h.last;
      struct_overhead = wrap (h.struct_overhead + header);
    })

unfoldable pub set_used : Ptr → Bool → Cells → Cells
unfolding write
set_used p b c = write c p (record (c p) { used = b })

-- The counters and the flag of a segment that is freed.
unfoldable pub mark_free : Ptr → Heap → Heap
unfolding set_used
mark_free p h = record h {
  cell = set_used p false h.cell;
  memory_used = sub64 h.memory_used (h.cell p).size;
  memory_free = wrap (h.memory_free + (h.cell p).size);
}

unfoldable pub free_segment : Ptr → Heap → Run Heap
free_segment p h =
    if not (canary_intact h.cell p)
    then panic
    else (do h1 ← combine_forward p (mark_free p h); combine_backward p h1)

-- `kfree`; the warning on a double free is a log line.
unfoldable pub kfree : Ptr → Heap → Run Heap
kfree addr h = if addr == null then ok h else free_segment (sub64 addr header) h

-- `seg->used = true;` and the counters, in both branches of kmalloc that return.
unfoldable pub take : Ptr → Heap → Heap
take p h = record h {
  cell = set_used p true h.cell;
  memory_free = sub64 h.memory_free (h.cell p).size;
  memory_used = wrap (h.memory_used + (h.cell p).size);
}
