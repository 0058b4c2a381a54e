-- ===== src/Mm/Heap/Alloc.antt =====
-- heap_init, expand_heap, kmalloc and the counters of kernel/src/mm/heap.c. They get pages from
-- the page allocator and map them; both come as an interface.
use limix.Base.{
  ℕ, zero, suc, ◌+◌, ◌-◌, ◌*◌, ◌/◌, ◌%◌, ◌^◌, ◌==◌, ltb, leb, if◌then◌else◌, true, false, not,
  Option, none, some,
}
use limix.Base.Run.{Run, ok, panic, out_of_fuel, ◌>>=◌}
use limix.Mm.Heap.{
  Ptr, null, wrap, sub64, heap_base, heap_canary0, heap_canary1, Segment, header, Heap, Cells,
  write, canary_intact, combine_backward, heap_split, take,
}

-- What the heap calls of pmm.c and vmm.c, over the state that those keep: request_page,
-- request_pages, and vmm_map of a writeable page. `none` is kernel_panic_error.
pub record Pages : Type 1 where
  pub State : Type 0
  pub request_page : State → Option (ℕ × State)
  pub request_pages : ℕ → State → Option (ℕ × State)
  pub map_page : Ptr → ℕ → State → Option State

-- CONFIG_HEAP_INITIAL_PAGES
abbrev pub initial_pages : ℕ
initial_pages = 16

unfoldable pub round_up : ℕ → ℕ → ℕ
round_up unit size = if ltb 0 (size % unit) then wrap (size - size % unit + unit) else size

unfoldable pub new_segment : Ptr → ℕ → Segment
new_segment prev size = record {
  canary0 = heap_canary0;
  size = size;
  prev = prev;
  next = null;
  used = false;
  canary1 = heap_canary1;
}

-- What expand_heap does to the heap once `size` bytes are mapped at its top.
unfoldable pub append_segment : ℕ → Heap → Run Heap
unfolding new_segment write
append_segment size h =
    let p = h.last in
    let q = wrap (p + header + (h.cell p).size) in
    let c1 = write h.cell q (new_segment p (sub64 size header)) in
    combine_backward q (record h {
      cell = write c1 p (record (c1 p) { next = q });
      last = q;
      struct_overhead = wrap (h.struct_overhead + header);
      memory_used = wrap (h.memory_used + header);
      memory_free = wrap (h.memory_free + 8);
    })

-- The loop of kmalloc: the block that it returns, or `none` behind the last segment.
unfoldable pub walk : ℕ → ℕ → Ptr → Heap → Run (Option Ptr × Heap)
walk zero size p h = out_of_fuel
walk (suc fuel) size p h =
    let seg = h.cell p in
    let next : Run (Option Ptr × Heap) = elim (seg.next == null) [
      | true ↦ ok (none, h)
      | false ↦ walk fuel size seg.next h
    ] in
    let here : Heap → Option Ptr × Heap = (λ h'. (some (wrap (p + header)), take p h')) in
    if p == null
    then panic
    else if not (canary_intact h.cell p)
    then panic
    else if seg.used
    then next
    else if ltb (wrap (size + header * 2)) seg.size
    then (do h' ← heap_split p size h; ok (here h'))
    else if leb size seg.size
    then ok (here h)
    else next

-- A segment takes up at least its header, so the walk takes no more rounds than this.
abbrev pub rounds : Heap → ℕ
rounds h = (h.top - h.first) / header + 1

module _ (P : Pages) where
  open P use {State, request_page, request_pages, map_page}

  -- `for (usz i = 0; i < pages; i++)` of expand_heap.
  unfoldable pub map_top : ℕ → Heap → State → Run (Heap × State)
  map_top zero h s = ok (h, s)
  map_top (suc n) h s = elim (request_page s) [
    | none ↦ panic
    | some (p, s1) ↦ elim (map_page h.top p s1) [
      | none ↦ panic
      | some s2 ↦ map_top n (record h { top = wrap (h.top + 0x1000) }) s2
    ]
  ]

  unfoldable pub expand_heap : ℕ → Heap → State → Run (Heap × State)
  expand_heap size h s =
      if size == 0
      then ok (h, s)
      else (let size' = round_up 0x1000 size in
          do (h1, s1) ← map_top (size' / 0x1000) h s; h2 ← append_segment size' h1; ok (h2, s1))

  -- kmalloc calls itself after it has grown the heap. `kmalloc` allows one such call.
  unfoldable pub kmalloc_calls : ℕ → ℕ → Heap → State → Run (Ptr × Heap × State)
  kmalloc_calls zero size h s = out_of_fuel
  kmalloc_calls (suc calls) size h s =
      let size' = round_up 0x10 size in
      if size' == 0 then ok (null, h, s) else (do
        (found, h1) ← walk (rounds h) size' h.first h
        elim found [
          | some a ↦ ok (a, h1, s)
          | none ↦ do
            (h2, s2) ← expand_heap (wrap (size' + header)) h1 s
            kmalloc_calls calls size' h2 s2
        ])

  unfoldable pub kmalloc : ℕ → Heap → State → Run (Ptr × Heap × State)
  unfolding kmalloc_calls
  kmalloc = kmalloc_calls 2

  -- `for (int i = 0; i < CONFIG_HEAP_INITIAL_PAGES; i++)` of heap_init, with `n` rounds left.
  unfoldable pub map_initial : ℕ → ℕ → State → Option State
  map_initial zero space s = some s
  map_initial (suc n) space s =
      let i = initial_pages - suc n in
      elim (map_page (wrap (heap_base + i * 2 ^ 12)) (wrap (space + i * 2 ^ 12)) s) [
        | none ↦ none
        | some s' ↦ map_initial n space s'
      ]

  unfoldable pub heap_init : Cells → State → Run (Heap × State)
  unfolding map_initial
  heap_init c s = elim (request_pages initial_pages s) [
    | none ↦ panic
    | some (space, s1) ↦ elim (space == 0) [
      | true ↦ panic
      | false ↦ elim (map_initial initial_pages space s1) [
        | none ↦ panic
        | some s2 ↦ ok (
          record {
            cell = write c heap_base (new_segment null (initial_pages * 0x1000 - header));
            first = heap_base;
            last = heap_base;
            top = heap_base + initial_pages * 2 ^ 12;
            memory_free = initial_pages * 0x1000 - header;
            memory_used = header;
            struct_overhead = header;
          },
          s2,
        )
      ]
    ]
  ]
