-- ===== src/Mm/Heap/Reach.antt =====
-- Every heap that heap_init, kmalloc and kfree reach.
use limix.Base.{
  ℕ, zero, suc, ◌+◌, ◌/◌, ◌^◌, ◌≤◌, ◌<◌, ◌≡◌, refl, sym, ◌∙◌, arith, ◌==◌, false, List, [], length,
  none, inl, inr, Option-cases,
}
use limix.Base.Run.{Run, ok, panic, out_of_fuel}
use mathlib.Core.Path.{subst}
use limix.Mm.Heap.{Ptr, null, wrap, header, Heap, Cells, kfree}
use limix.Mm.Heap.Alloc.{
  Pages, round_up, walk, rounds, map_top, expand_heap, heap_init, kmalloc, kmalloc_calls,
}
use limix.Mm.Heap.Chain.{Block, Chain-unique}
use limix.Mm.Heap.Blocks.{Blocks, fit, release, header_of}
use limix.Mm.Heap.Free.{IsHeap, kfree-release}
use limix.Mm.Heap.Walk.{Walked, walk-fit}
use limix.Mm.Heap.Grow.{fresh}
use limix.Mm.Heap.Malloc.{Granted, round_up_16, rounds_enough}
use limix.Mm.Heap.Expand.{growth, kmalloc-grow}
use limix.Mm.Heap.Start.{initial_block, heap_init-IsHeap}
use limix.Mm.Heap.RoundTrip.{kmalloc-fits}
use limix.Mm.Heap.Coalesced.{Coalesced, Keeps, fit-Keeps, grow-Coalesced, release-Coalesced}

module _ (P : Pages) where
  open P use {State}

  -- What each way for the mapping loop to fail makes of kmalloc.
  kmalloc-stops :
      (size : ℕ) (h : Heap) (s : State) (r : Ptr × Heap × State)
      → (round_up 0x10 size == 0) ≡ false
      → round_up 0x10 size + header < 2 ^ 64
      → walk (rounds h) (round_up 0x10 size) h.first h ≡ ok (none, h)
      → kmalloc P size h s ≡ ok r
      → (m : Run (Heap × State)) → map_top P (growth size / 0x1000) h s ≡ m
      → (h1 : Heap) × (s1 : State) × (m ≡ ok (h1, s1))
  unfolding kmalloc kmalloc_calls expand_heap
  kmalloc-stops size h s r some_size small walked e (ok (h1, s1)) mapped = (h1, s1, refl)
  kmalloc-stops size h s r some_size small walked e panic mapped =
      let narrow : wrap (round_up 0x10 size + header) ≡ round_up 0x10 size + header = omega arith in
      let positive : (round_up 0x10 size + header == 0) ≡ false = ground arith in
      ground
        (arith, rw (some_size, walked, narrow, positive, mapped, kmalloc_calls, expand_heap) at e)
  kmalloc-stops size h s r some_size small walked e out_of_fuel mapped =
      let narrow : wrap (round_up 0x10 size + header) ≡ round_up 0x10 size + header = omega arith in
      let positive : (round_up 0x10 size + header == 0) ≡ false = ground arith in
      ground
        (arith, rw (some_size, walked, narrow, positive, mapped, kmalloc_calls, expand_heap) at e)

  -- The heap as blocks of which no two neighbours are free.
  pub record Sound (h : Heap) : Type 0 where
    pub block0 : Block
    pub blocks : List Block
    pub is_heap : IsHeap h block0 blocks
    pub coalesced : Coalesced block0 blocks

  -- One call of the heap: kmalloc of less than the address space behind the heap, or kfree of the
  -- address behind any header.
  pub data Step : Heap → State → Heap → State → Type 0 where
    malloc :
        (size : ℕ) (a : Ptr) {h h' : Heap} {s s' : State}
        → size + 0x2000 < 2 ^ 64
        → h.top + growth size < 2 ^ 64
        → kmalloc P size h s ≡ ok (a, h', s')
        → Step h s h' s'
    free :
        (k : ℕ) (b : Block) (bs : List Block) {h h' : Heap} {s : State}
        → IsHeap h b bs
        → k ≤ length bs
        → kfree (header_of k h.first b bs + header) h ≡ ok h'
        → Step h s h' s

  pub data Reached : Heap → State → Type 0 where
    initial :
        (c : Cells) (s : State) {h : Heap} {s' : State}
        → heap_init P c s ≡ ok (h, s')
        → Reached h s'
    step : {h h' : Heap} {s s' : State} → Reached h s → Step h s h' s' → Reached h' s'

  kmalloc_zero : (h : Heap) (s : State) → kmalloc P 0 h s ≡ ok (null, h, s)
  unfolding kmalloc kmalloc_calls round_up
  kmalloc_zero h s = refl

  ok-heap :
      (a a' : Ptr) (h h' : Heap) (s s' : State) (r : Run (Ptr × Heap × State))
      → r ≡ ok (a, h, s)
      → r ≡ ok (a', h', s')
      → h ≡ h'
  ok-heap a a' h h' s s' r e f = ground (arith, sym e ∙ f)

  -- A granted call leaves a sound heap.
  Granted-Sound :
      (size k : ℕ) (out : Blocks) (a : Ptr) (h h' : Heap) (s s1 s' : State) (b : Block)
      (bs : List Block) (is : IsHeap h b bs) (r : Run (Ptr × Heap × State))
      → Coalesced b bs
      → Granted P h s1 b bs is size k out r
      → r ≡ ok (a, h', s')
      → Coalesced out.0 out.1
      → Sound h'
  Granted-Sound size k out a h h' s s1 s' b bs is r c got e kept = record {
    block0 = out.0;
    blocks = out.1;
    is_heap =
        subst (λ g. IsHeap g out.0 out.1) (ok-heap _ a got.heap h' s1 s' r got.ran e) got.blocks;
    coalesced = kept;
  }

  kmalloc-Sound :
      (size : ℕ) (a : Ptr) (h h' : Heap) (s s' : State)
      → Sound h
      → 0 < size
      → size + 0x2000 < 2 ^ 64
      → h.top + growth size < 2 ^ 64
      → kmalloc P size h s ≡ ok (a, h', s')
      → Sound h'
  kmalloc-Sound size a h h' s s' sound pos small room e =
      let n = round_up 0x10 size in
      let b = sound.block0 in
      let bs = sound.blocks in
      let is = sound.is_heap in
      elim (Option-cases (fit n b bs)) [
        | inr ((k, out), found) ↦
            Granted-Sound n k out a h h' s s s' b bs is _ sound.coalesced
              (kmalloc-fits P h s b bs is size k out pos (omega arith) found) e
              (subst Keeps found (fit-Keeps n b bs sound.coalesced))
        | inl full ↦
            let (enough, low, _, _) = round_up_16 size pos (omega arith) in
            let walked : walk (rounds h) n h.first h ≡ ok (none, h) =
              subst (λ o. Walked h null h.first b bs o (walk (rounds h) n h.first h)) full
                (walk-fit h n enough (omega arith) (rounds h) null h.first b bs
                  (rounds_enough h b bs is) is.start (omega (arith, is.extent, is.limit))
                  is.chain) in
            let (h1, s1, mapped) =
              kmalloc-stops size h s (a, h', s') (ground arith) (omega arith) walked e _ refl in
            let got = kmalloc-grow P h s b bs is size h1 s1 pos small room full mapped in
            let grown = grow-Coalesced (fresh (growth size)) b bs sound.coalesced in
            Granted-Sound n got.k got.out a got.larger h' s1 s1 s' _ _ got.blocks _ grown
              got.granted e (subst Keeps got.found (fit-Keeps n _ _ grown))
      ]

  Step-Sound : (h h' : Heap) (s s' : State) → Step h s h' s' → Sound h → Sound h'
  Step-Sound h h' s s' (malloc zero a small room e) sound =
      subst Sound (ok-heap null a h h' s s' _ (kmalloc_zero h s) e) sound
  Step-Sound h h' s s' (malloc (suc size) a small room e) sound =
      kmalloc-Sound (suc size) a h h' s s' sound (omega arith) small room e
  Step-Sound h h' s s' (free k b bs is short e) sound =
      let (h2, freed, blocks) = kfree-release h k b bs is short in
      let (head, tail) =
        Chain-unique h.cell null null h.first h.last h.last sound.block0 b sound.blocks bs
          sound.is_heap.chain is.chain in
      let c : Coalesced b bs = rw (sym head, sym tail) sound.coalesced in
      let same : h2 ≡ h' = ground (arith, sym freed ∙ e) in
      record {
        block0 = (release k b bs).0;
        blocks = (release k b bs).1;
        is_heap = subst (λ g. IsHeap g (release k b bs).0 (release k b bs).1) same blocks;
        coalesced = release-Coalesced k b bs c;
      }

  -- After heap_init and any sequence of calls, each either a kmalloc that returns, of a size below
  -- 2 ^ 64 - 2 ^ 13 for which the heap could grow below 2 ^ 64, or a kfree of the address behind
  -- any header that returns: the headers describe a list of blocks that lie side by side from the
  -- first segment to the top of the heap, linked both ways, and no two neighbours are free.
  pub Reached-Sound : (h : Heap) (s : State) → Reached h s → Sound h
  Reached-Sound h s' (initial c s e) = record {
    block0 = initial_block;
    blocks = [];
    is_heap = heap_init-IsHeap P c s s' h e;
    coalesced = tt;
  }
  Reached-Sound h' s' (step {h} {s = s} r st) = Step-Sound h h' s s' st (Reached-Sound h s r)
