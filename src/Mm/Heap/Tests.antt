-- ===== src/Mm/Heap/Tests.antt =====
-- The theorems about the heap at a heap that has just been set up.
use limix.Base.{ℕ, ◌+◌, ◌-◌, ◌*◌, ◌/◌, ◌≡◌, refl, arith, [], ◌∷◌, none, some, true, false}
use limix.Base.Run.{ok}
use limix.Mm.Heap.{Ptr, heap_base, header, Heap, Cells, kfree}
use limix.Mm.Heap.Alloc.{Pages, round_up, map_top, kmalloc, heap_init, map_initial}
use limix.Mm.Heap.Chain.{block}
use limix.Mm.Heap.Blocks.{Blocks, fit, release, header_of}
use limix.Mm.Heap.Free.{IsHeap, kfree-release}
use limix.Mm.Heap.Malloc.{Granted}
use limix.Mm.Heap.Expand.{Grown, growth, raise, kmalloc-grow}
use limix.Mm.Heap.Start.{initial_block, initial_heap, initial_heap-IsHeap}
use limix.Mm.Heap.RoundTrip.{kmalloc-fits, kmalloc-kfree}
use limix.Libk.Memory.{Mem, IsBytes}
use limix.Mm.Heap.Wrap.{align_up}
use limix.Mm.Heap.Reach.{Sound, Step, Reached, Reached-Sound}

-- A page allocator that never runs out: its state is the next page number.
abbrev counting : Pages
counting = record {
  State = ℕ;
  request_page = λ s. some (s * 0x1000, s + 1);
  request_pages = λ n s. some (s * 0x1000, s + n);
  map_page = λ v p s. some s;
}

abbrev blank : Cells
blank p = record { canary0 = 0; size = 0; prev = 0; next = 0; used = false; canary1 = 0 }

abbrev start_heap : Heap
start_heap = initial_heap blank

start : heap_init counting blank 1 ≡ ok (start_heap, 17)
unfolding heap_init map_initial
start = refl

abbrev after_100 : Blocks
after_100 = (block 112 true, block (0x10000 - 48 - 112 - 48) false ∷ [])

fit_100 : fit (round_up 0x10 100) initial_block [] ≡ some (0, after_100)
unfolding fit round_up
fit_100 = refl

fit_70000 : fit (round_up 0x10 70000) initial_block [] ≡ none
unfolding fit round_up
fit_70000 = refl

growth_70000 : growth 70000 ≡ 18 * 0x1000
unfolding round_up
growth_70000 = refl

mapped_70000 : map_top counting (growth 70000 / 0x1000) start_heap 17 ≡ ok (raise 18 start_heap, 35)
unfolding map_top round_up
mapped_70000 = refl

kfree-release_example :
    (h' : Heap) × (kfree (header_of 0 heap_base initial_block [] + header) start_heap ≡ ok h')
    × IsHeap h' (release 0 initial_block []).0 (release 0 initial_block []).1
kfree-release_example =
    kfree-release start_heap 0 initial_block [] (initial_heap-IsHeap blank) (omega arith)

kmalloc-fits_example :
    Granted counting start_heap 17 initial_block []
      (initial_heap-IsHeap blank)
      (round_up 0x10 100)
      0
      after_100
      (kmalloc counting 100 start_heap 17)
kmalloc-fits_example =
    kmalloc-fits counting start_heap 17 initial_block [] (initial_heap-IsHeap blank) 100 0 after_100
      (omega arith) (omega arith) fit_100

kmalloc-kfree_example :
    (a : Ptr) × (h1 : Heap) × (h2 : Heap) × (kmalloc counting 100 start_heap 17 ≡ ok (a, h1, 17))
    × (kfree a h1 ≡ ok h2)
    × IsHeap h2 initial_block []
kmalloc-kfree_example =
    kmalloc-kfree counting start_heap 17 initial_block [] (initial_heap-IsHeap blank) 100 0
      after_100 tt (omega arith) (omega arith) fit_100

kmalloc-grow_example :
    Grown counting start_heap 17 initial_block []
      (initial_heap-IsHeap blank)
      70000
      35
      (kmalloc counting 70000 start_heap 17)
kmalloc-grow_example =
    kmalloc-grow counting start_heap 17 initial_block [] (initial_heap-IsHeap blank) 70000
      (raise 18 start_heap) 35 (omega arith) (omega arith) (omega (arith, growth_70000)) fit_70000
      mapped_70000

got_100 :
    Granted counting start_heap 17 initial_block []
      (initial_heap-IsHeap blank)
      (round_up 0x10 100)
      0
      after_100
      (kmalloc counting 100 start_heap 17)
got_100 =
    kmalloc-fits counting start_heap 17 initial_block [] (initial_heap-IsHeap blank) 100 0 after_100
      (omega arith) (omega arith) fit_100

reached : Reached counting (got_100.heap) 17
unfolding round_up
reached =
    Reached.step (Reached.initial blank 1 start)
      (Step.malloc 100 _ (omega arith) (omega arith) got_100.ran)

Reached-Sound_example : Sound counting (got_100.heap)
Reached-Sound_example = Reached-Sound counting (got_100.heap) 17 reached

abbrev ones : Mem
ones x = 1

ones-IsBytes : IsBytes ones
ones-IsBytes a = omega arith

fit_112 : fit (round_up 0x10 (align_up 100)) initial_block [] ≡ some (0, after_100)
unfolding round_up
fit_112 = fit_100
