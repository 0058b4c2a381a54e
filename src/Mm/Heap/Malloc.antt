-- ===== src/Mm/Heap/Malloc.antt =====
-- kmalloc against first fit on the list of blocks.
use limix.Base.{
  ℕ, suc, ◌+◌, ◌*◌, ◌%◌, ◌^◌, ◌≤◌, ◌<◌, ◌≡◌, sym, ◌∙◌, arith, ◌==◌, false, List, [], ◌∷◌, length,
  some,
}
use limix.Base.Run.{Run, ok}
use mathlib.Core.Path.{subst}
use limix.Mm.Heap.{Ptr, null, header, Heap}
use limix.Mm.Heap.Alloc.{Pages, round_up, walk, rounds, kmalloc_calls}
use limix.Mm.Heap.Chain.{Block, behind, end_of}
use limix.Mm.Heap.Blocks.{Blocks, fit, header_of}
use limix.Mm.Heap.Fit.{Chosen, Fitted, fit-Fitted}
use limix.Mm.Heap.Free.{IsHeap}
use limix.Mm.Heap.Walk.{Walked, Allocated, walk-fit}

-- The size that kmalloc works with: the next multiple of 16.
pub round_up_16 :
    (size : ℕ)
    → 0 < size
    → size + 16 < 2 ^ 64
    → (0x10 ≤ round_up 0x10 size)
      × (round_up 0x10 size < size + 16)
      × (size ≤ round_up 0x10 size)
      × (round_up 0x10 size % 16 ≡ 0)
unfolding round_up
round_up_16 size pos small = (ground arith, ground arith, ground arith, ground arith)

-- Each block takes up a header, so `rounds` is enough.
header-le-end : (p : Ptr) (b : Block) (bs : List Block) → p + 48 * (length bs + 1) ≤ end_of p b bs
header-le-end p b [] = omega arith
header-le-end p b (d ∷ ds) = omega (arith, header-le-end (behind p b) d ds)

pub rounds_enough : (h : Heap) (b : Block) (bs : List Block) → IsHeap h b bs → length bs < rounds h
rounds_enough h b bs is = omega (arith, header-le-end h.first b bs, is.extent)

module _ (P : Pages) (h : Heap) (s : P.State) (b : Block) (bs : List Block)
    (is : IsHeap h b bs) where
  -- A call that returned block `k` of `out`, and left a well-formed heap of those blocks.
  pub record Granted (size k : ℕ) (out : Blocks) (r : Run (Ptr × Heap × P.State)) : Type 0 where
    pub heap : Heap
    pub ran : r ≡ ok (header_of k h.first b bs + header, heap, s)
    pub first : heap.first ≡ h.first
    pub blocks : IsHeap heap out.0 out.1
    pub chosen : Chosen size k b bs out.0 out.1

  -- Where a block fits, kmalloc returns the address behind the header of the first such block.
  pub kmalloc_calls-fits :
      (calls size k : ℕ) (out : Blocks)
      → 0 < size
      → size + 128 < 2 ^ 64
      → fit (round_up 0x10 size) b bs ≡ some (k, out)
      → Granted (round_up 0x10 size) k out (kmalloc_calls P (suc calls) size h s)
  unfolding kmalloc_calls
  kmalloc_calls-fits calls size k out pos small found =
      let (enough, low, _, _) = round_up_16 size pos (omega arith) in
      let n = round_up 0x10 size in
      let got : Allocated h null h.first b bs k out (walk (rounds h) n h.first h) =
        (subst (λ o. Walked h null h.first b bs o (walk (rounds h) n h.first h)) found
          (walk-fit h n enough (omega arith) (rounds h) null h.first b bs (rounds_enough h b bs is)
            is.start (omega (arith, is.extent, is.limit)) is.chain)) in
      let (chosen, extent) : Fitted n h.first b bs (some (k, out)) =
        (subst (Fitted n h.first b bs) found (fit-Fitted n h.first b bs)) in
      let some_size : (n == 0) ≡ false = ground arith in
      record {
        heap = got.heap;
        ran = rw (some_size, got.ran, kmalloc_calls);
        first = got.first;
        blocks = record {
          chain = rw (got.first) got.chain;
          start = omega (arith, got.first, is.start);
          extent = rw (got.first) (extent ∙ is.extent ∙ sym got.top);
          limit = omega (arith, got.top, is.limit);
        };
        chosen = chosen;
      }
