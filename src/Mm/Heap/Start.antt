-- ===== src/Mm/Heap/Start.antt =====
-- heap_init leaves one free block.
use limix.Base.{
  ◌+◌, ◌-◌, ◌*◌, ◌^◌, ◌≡◌, refl, sym, ◌∙◌, arith, ◌==◌, false, Bool-cases, inl, inr, ◌⊎◌, [],
  Option-cases,
}
use limix.Base.Run.{ok, panic}
use mathlib.Core.Path.{subst}
use limix.Mm.Heap.{null, heap_base, header, Heap, Cells, write}
use limix.Mm.Heap.Alloc.{Pages, initial_pages, new_segment, map_initial, heap_init}
use limix.Mm.Heap.Chain.{Block, block, segment, write_self}
use limix.Mm.Heap.Free.{IsHeap}

-- The one block of a heap that has just been set up.
abbrev pub initial_block : Block
initial_block = block (initial_pages * 0x1000 - header) false

abbrev pub initial_heap : Cells → Heap
initial_heap c = record {
  cell = write c heap_base (new_segment null (initial_pages * 0x1000 - header));
  first = heap_base;
  last = heap_base;
  top = heap_base + initial_pages * 2 ^ 12;
  memory_free = initial_pages * 0x1000 - header;
  memory_used = header;
  struct_overhead = header;
}

module _ (P : Pages) where
  open P use {State, request_pages}

  heap_init_cases :
      (c : Cells) (s : State)
      → (heap_init P c s ≡ panic) ⊎ ((s' : State) × (heap_init P c s ≡ ok (initial_heap c, s')))
  unfolding heap_init
  heap_init_cases c s = elim (Option-cases (request_pages initial_pages s)) [
    | inl e ↦ inl (rw (e, heap_init) refl)
    | inr ((space, s1), e) ↦ elim (Bool-cases (space == 0)) [
      | inl z ↦ inl (rw (e, z, heap_init) refl)
      | inr z ↦ elim (Option-cases (map_initial P initial_pages space s1)) [
        | inl f ↦ inl (rw (e, z, f, heap_init) refl)
        | inr (s2, f) ↦ inr (s2, rw (e, z, f, heap_init) refl)
      ]
    ]
  ]

pub initial_heap-IsHeap : (c : Cells) → IsHeap (initial_heap c) initial_block []
unfolding new_segment
initial_heap-IsHeap c = record {
  chain = (write_self c heap_base (segment initial_block null null), refl);
  start = omega arith;
  extent = omega arith;
  limit = omega arith;
}

-- Where heap_init returns, the heap is well formed, and one free block of all the bytes mapped but
-- its header.
pub heap_init-IsHeap :
    (P : Pages) (c : Cells) (s s' : P.State) (h : Heap)
    → heap_init P c s ≡ ok (h, s')
    → IsHeap h initial_block []
heap_init-IsHeap P c s s' h e = elim (heap_init_cases P c s) [
  | inl p ↦ ground (arith, sym p ∙ e)
  | inr (s2, p) ↦
      let same : initial_heap c ≡ h = ground (arith, sym p ∙ e) in
      subst (λ g. IsHeap g initial_block []) same (initial_heap-IsHeap c)
]
