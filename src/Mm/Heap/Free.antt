-- ===== src/Mm/Heap/Free.antt =====
-- kfree on a chain of headers.
use limix.Base.{
  ℕ, zero, suc, ◌+◌, ◌^◌, ◌≤◌, ◌<◌, ◌≡◌, refl, sym, ◌∙◌, arith, ◌==◌, true, false, Bool-cases, inl,
  inr, List, [], ◌∷◌, length,
}
use limix.Base.Run.{Run, ok}
use limix.Mm.Heap.{
  Ptr, null, sub64, header, Heap, write, canary_intact, mark_free, combine_forward,
  combine_backward, free_segment, kfree,
}
use limix.Mm.Heap.Chain.{
  Block, segment, behind, Chain, end_of, end_of-le, Chain-head, Chain-rehead, canary-segment,
}
use limix.Mm.Heap.Blocks.{
  Blocks, merge_next, free_block, release, header_of, end_of-head, end_of-merge_next,
  end_of-release, release-first, release-deeper, release-second_used, release-second_free,
}
use limix.Mm.Heap.Combine.{Leaves, combine_forward_lem}

-- Clearing the flag of the head.
mark_free-Chain :
    (h : Heap) (prev p : Ptr) (b : Block) (bs : List Block)
    → Chain h.cell prev p h.last b bs
    → Chain (mark_free p h).cell prev p h.last (free_block b) bs
unfolding mark_free write
mark_free-Chain h prev p b bs ch =
    let at = Chain-head h.cell prev p h.last b bs ch in
    Chain-rehead h.cell (mark_free p h).cell prev prev p h.last b (free_block b) bs refl
      (ground (arith, at)) (λ x l. ground arith) ch

mark_free-below : (h : Heap) (p x : Ptr) → x < p → (mark_free p h).cell x ≡ h.cell x
unfolding mark_free write
mark_free-below h p x l = ground arith

mark_free-rest :
    (h : Heap) (p : Ptr)
    → ((mark_free p h).last ≡ h.last)
      × ((mark_free p h).first ≡ h.first)
      × ((mark_free p h).top ≡ h.top)
unfolding mark_free
mark_free-rest h p = (refl, refl, refl)

-- The first half of free_segment: the flag, and the segment behind.
half_lem :
    (h : Heap) (prev p : Ptr) (b : Block) (bs : List Block)
    → 0 < p
    → end_of p b bs < 2 ^ 64
    → Chain h.cell prev p h.last b bs
    → Leaves h prev p (merge_next (free_block b) bs) (combine_forward p (mark_free p h))
half_lem h prev p b bs pos limit ch = record {
  heap = out.heap;
  ran = out.ran;
  chain = out.chain;
  below = λ x l. out.below x l ∙ mark_free-below h p x l;
  first = out.first ∙ (mark_free-rest h p).1;
  top = out.top ∙ (mark_free-rest h p).2;
}
  where
    marked : Chain (mark_free p h).cell prev p (mark_free p h).last (free_block b) bs
    marked = rw ((mark_free-rest h p).0) (mark_free-Chain h prev p b bs ch)

    out :
        Leaves
          (mark_free p h)
          prev
          p
          (merge_next (free_block b) bs)
          (combine_forward p (mark_free p h))
    out =
        combine_forward_lem (mark_free p h) prev p (free_block b) bs pos
          (omega (arith, end_of-head p p (free_block b) b bs refl)) marked

free_segment-halves :
    (h h1 : Heap) (p : Ptr)
    → canary_intact h.cell p ≡ true
    → combine_forward p (mark_free p h) ≡ ok h1
    → free_segment p h ≡ combine_backward p h1
unfolding free_segment
free_segment-halves h h1 p intact e = rw (intact, e, free_segment)

combine_backward_first :
    (h : Heap) (p : Ptr) (b : Block) (bs : List Block)
    → Chain h.cell null p h.last b bs
    → combine_backward p h ≡ ok h
unfolding combine_backward
combine_backward_first h p b bs ch =
    let at = Chain-head h.cell null p h.last b bs ch in
    ground (arith, at, canary-segment h.cell p b null _ at)

module _ (h : Heap) (prev p : Ptr) (b d : Block) (bs : List Block) (pos : 0 < p)
    (ch : Chain h.cell prev p h.last b (d ∷ bs)) where
  pub combine_backward_used : b.used ≡ true → combine_backward (behind p b) h ≡ ok h
  unfolding combine_backward
  combine_backward_used used =
      let q = behind p b in
      let at = Chain-head h.cell p q h.last d bs ch.1 in
      ground
        (arith, at, ch.0, canary-segment h.cell q d p _ at, canary-segment h.cell p b prev q ch.0)

  pub combine_backward_free : b.used ≡ false → combine_backward (behind p b) h ≡ combine_forward p h
  unfolding combine_backward
  combine_backward_free unused =
      let q = behind p b in
      let at = Chain-head h.cell p q h.last d bs ch.1 in
      ground
        (arith, at, ch.0, canary-segment h.cell q d p _ at, canary-segment h.cell p b prev q ch.0)

module _ (h : Heap) where
  -- The first block of the heap has none before it.
  free_segment_first :
      (p : Ptr) (b : Block) (bs : List Block)
      → 0 < p
      → end_of p b bs < 2 ^ 64
      → Chain h.cell null p h.last b bs
      → Leaves h null p (release 0 b bs) (free_segment p h)
  free_segment_first p b bs pos limit ch =
      let out = half_lem h null p b bs pos limit ch in
      let intact = canary-segment h.cell p b null _ (Chain-head h.cell null p h.last b bs ch) in
      rw (release-first b bs, free_segment-halves h out.heap p intact out.ran)
        (record {
          heap = out.heap;
          ran = combine_backward_first out.heap p _ _ out.chain;
          chain = out.chain;
          below = out.below;
          first = out.first;
          top = out.top;
        })

  -- The second half of free_segment at the second block, from what the first half left.
  second_half :
      (prev p : Ptr) (b d : Block) (bs : List Block) (r : Run Heap)
      → 0 < p
      → end_of p b (d ∷ bs) < 2 ^ 64
      → h.cell p ≡ segment b prev (behind p b)
      → (out : Leaves h p (behind p b) (merge_next (free_block d) bs) r)
      → Leaves h prev p (release 1 b (d ∷ bs)) (combine_backward (behind p b) out.heap)
  second_half prev p b d bs r pos limit at out = elim (Bool-cases b.used) [
    | inl used ↦
        rw
          (
            release-second_used b d bs used,
            combine_backward_used out.heap prev p b d' bs' pos whole used,
          )
          (record {
            heap = out.heap;
            ran = refl;
            chain = whole;
            below = λ x l. out.below x (omega arith);
            first = out.first;
            top = out.top;
          })
    | inr unused ↦
        rw
          (
            release-second_free b d bs unused,
            combine_backward_free out.heap prev p b d' bs' pos whole unused,
          )
          (record {
            heap = both.heap;
            ran = both.ran;
            chain = both.chain;
            below = λ x l. both.below x l ∙ out.below x (omega arith);
            first = both.first ∙ out.first;
            top = both.top ∙ out.top;
          })
  ]
    where
      d' : Block
      d' = (merge_next (free_block d) bs).0

      bs' : List Block
      bs' = (merge_next (free_block d) bs).1

      whole : Chain out.heap.cell prev p out.heap.last b (d' ∷ bs')
      whole = (out.below p (omega arith) ∙ at, out.chain)

      extent : end_of p b (d' ∷ bs') < 2 ^ 64
      extent = omega (
        arith,
        end_of-merge_next (behind p b) (free_block d) bs,
        end_of-head (behind p b) (behind p b) (free_block d) d bs refl,
      )

      both : Leaves out.heap prev p (merge_next b (d' ∷ bs')) (combine_forward p out.heap)
      both = combine_forward_lem out.heap prev p b (d' ∷ bs') pos extent whole

  free_segment_second :
      (prev p : Ptr) (b d : Block) (bs : List Block)
      → 0 < p
      → end_of p b (d ∷ bs) < 2 ^ 64
      → Chain h.cell prev p h.last b (d ∷ bs)
      → Leaves h prev p (release 1 b (d ∷ bs)) (free_segment (behind p b) h)
  free_segment_second prev p b d bs pos limit ch =
      let q = behind p b in
      let out = half_lem h p q d bs (omega arith) limit ch.1 in
      let intact = canary-segment h.cell q d p _ (Chain-head h.cell p q h.last d bs ch.1) in
      rw (free_segment-halves h out.heap q intact out.ran)
        (second_half prev p b d bs _ pos limit ch.0 out)

  -- A block in front of those that a call has changed.
  pub Leaves-cons :
      (prev p : Ptr) (b : Block) (bs : Blocks) (r : Run Heap)
      → h.cell p ≡ segment b prev (behind p b)
      → Leaves h p (behind p b) bs r
      → Leaves h prev p (b, bs.0 ∷ bs.1) r
  Leaves-cons prev p b bs r at out = record {
    heap = out.heap;
    ran = out.ran;
    chain = (out.below p (omega arith) ∙ at, out.chain);
    below = λ x l. out.below x (omega arith);
    first = out.first;
    top = out.top;
  }

  free_segment_inner :
      (k : ℕ) (prev p : Ptr) (b : Block) (bs : List Block)
      → k < length bs
      → 0 < p
      → end_of p b bs < 2 ^ 64
      → Chain h.cell prev p h.last b bs
      → Leaves h prev p (release (suc k) b bs) (free_segment (header_of (suc k) p b bs) h)
  free_segment_inner k prev p b [] short pos limit ch = absurd (omega arith)
  free_segment_inner zero prev p b (d ∷ bs) short pos limit ch =
      free_segment_second prev p b d bs pos limit ch
  free_segment_inner (suc k) prev p b (d ∷ bs) short pos limit ch = rw (release-deeper k b d bs) (
      Leaves-cons prev p b _ _ ch.0
        (free_segment_inner k p (behind p b) d bs (omega arith) (omega arith) limit ch.1))

-- The heap as blocks: `b` at the start, `bs` behind it, up to the top.
pub record IsHeap (h : Heap) (b : Block) (bs : List Block) : Type 0 where
  pub chain : Chain h.cell null h.first h.last b bs
  pub start : 0 < h.first
  pub extent : end_of h.first b bs ≡ h.top
  pub limit : h.top < 2 ^ 64

free_segment_lem :
    (h : Heap) (k : ℕ) (b : Block) (bs : List Block)
    → IsHeap h b bs
    → k ≤ length bs
    → Leaves h null h.first (release k b bs) (free_segment (header_of k h.first b bs) h)
free_segment_lem h zero b bs is short =
    free_segment_first h h.first b bs is.start (omega (arith, is.extent, is.limit)) is.chain
free_segment_lem h (suc k) b bs is short =
    free_segment_inner h k null h.first b bs (omega arith) is.start
      (omega (arith, is.extent, is.limit)) is.chain

header_of-lt :
    (k : ℕ) (p : Ptr) (b : Block) (bs : List Block) → header_of k p b bs + header ≤ end_of p b bs
header_of-lt zero p b bs = omega (arith, end_of-le p b bs)
header_of-lt (suc k) p b [] = omega arith
header_of-lt (suc k) p b (d ∷ bs) = header_of-lt k (behind p b) d bs

-- On a well-formed heap, kfree of the address behind the header of any block returns, frees that
-- block, joins it to the free blocks on both sides, and leaves a well-formed heap of those blocks.
pub kfree-release :
    (h : Heap) (k : ℕ) (b : Block) (bs : List Block)
    → IsHeap h b bs
    → k ≤ length bs
    → (h' : Heap) × (kfree (header_of k h.first b bs + header) h ≡ ok h')
      × IsHeap h' (release k b bs).0 (release k b bs).1
unfolding kfree
kfree-release h k b bs is short =
    let p = header_of k h.first b bs in
    let out = free_segment_lem h k b bs is short in
    let above : (p + header == null) ≡ false = ground arith in
    let back : sub64 (p + header) header ≡ p =
      omega (arith, header_of-lt k h.first b bs, is.extent, is.limit) in
    (
      out.heap,
      rw (above, back, kfree) out.ran,
      record {
        chain = rw (out.first) out.chain;
        start = omega (arith, out.first, is.start);
        extent = rw (out.first) (end_of-release k h.first b bs ∙ is.extent ∙ sym out.top);
        limit = omega (arith, out.top, is.limit);
      },
    )
