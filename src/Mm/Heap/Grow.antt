-- ===== src/Mm/Heap/Grow.antt =====
-- expand_heap puts a free block at the end of the heap.
use limix.Base.{
  ℕ, ◌+◌, ◌-◌, ◌^◌, ◌≤◌, ◌<◌, ◌≡◌, refl, ap, ◌∙◌, arith, false, Bool-cases, inl, inr, List, [], ◌∷◌,
}
use limix.Mm.Heap.{Ptr, null, wrap, sub64, header, Heap, write, combine_backward}
use limix.Mm.Heap.Alloc.{new_segment, append_segment}
use limix.Mm.Heap.Chain.{Block, block, segment, behind, Chain, end_of}
use limix.Mm.Heap.Blocks.{merge_next-free, grow, grow-used, grow-free, grow-cons, end_of-merge_next}
use limix.Mm.Heap.Combine.{Leaves, combine_forward_lem}
use limix.Mm.Heap.Fit.{AllUnfit}
use limix.Mm.Heap.Free.{Leaves-cons, combine_backward_used, combine_backward_free}

-- The heap with the new segment linked in, before it is joined.
abbrev linked : ℕ → Heap → Heap
linked size h =
    let p = h.last in
    let q = wrap (p + header + (h.cell p).size) in
    let c1 = write h.cell q (new_segment p (sub64 size header)) in
    record h {
      cell = write c1 p (record (c1 p) { next = q });
      last = q;
      struct_overhead = wrap (h.struct_overhead + header);
      memory_used = wrap (h.memory_used + header);
      memory_free = wrap (h.memory_free + 8);
    }

append_segment-linked :
    (size : ℕ) (h : Heap)
    → append_segment size h ≡ combine_backward (linked size h).last (linked size h)
unfolding append_segment
append_segment-linked size h = refl

module _ (h : Heap) (prev p : Ptr) (b : Block) (size : ℕ) (pos : 0 < p) (large : header ≤ size)
    (limit : behind p b + size < 2 ^ 64) (at : h.cell p ≡ segment b prev null)
    (end : h.last ≡ p) where
  linked-last : (linked size h).last ≡ behind p b
  linked-last = ground arith

  linked-here : (linked size h).cell p ≡ segment b prev (behind p b)
  unfolding write
  linked-here = ground arith

  linked-new : (linked size h).cell (behind p b) ≡ segment (block (size - header) false) p null
  unfolding write new_segment
  linked-new = ground arith

  linked-below : (x : Ptr) → x < p → (linked size h).cell x ≡ h.cell x
  unfolding write
  linked-below x l = ground arith

  -- The chain of one block, with the new one behind it.
  linked-Chain :
      Chain (linked size h).cell prev p (linked size h).last b (block (size - header) false ∷ [])
  linked-Chain = (linked-here, (linked-new, linked-last))

-- The free block that `size` more bytes make.
abbrev pub fresh : ℕ → Block
fresh size = block (size - header) false

append_last :
    (h : Heap) (prev p : Ptr) (b : Block) (size : ℕ)
    → 0 < p
    → header ≤ size
    → behind p b + size < 2 ^ 64
    → Chain h.cell prev p h.last b []
    → Leaves h prev p (grow (fresh size) b []) (append_segment size h)
append_last h prev p b size pos large limit ch = elim (Bool-cases b.used) [
  | inl used ↦ rw (grow-used (fresh size) b used) (record {
    heap = h1;
    ran = step ∙ combine_backward_used h1 prev p b (fresh size) [] pos whole used;
    chain = whole;
    below = linked-below h prev p b size pos large limit ch.0 ch.1;
    first = refl;
    top = refl;
  })
  | inr unused ↦
      let out =
        combine_forward_lem h1 prev p b (fresh size ∷ []) pos (omega (arith, limit)) whole in
      rw (grow-free (fresh size) b unused) (record {
        heap = out.heap;
        ran = step ∙ (combine_backward_free h1 prev p b (fresh size) [] pos whole unused ∙ out.ran);
        chain = out.chain;
        below = λ x l. out.below x l ∙ linked-below h prev p b size pos large limit ch.0 ch.1 x l;
        first = out.first;
        top = out.top;
      })
]
  where
    h1 : Heap
    h1 = linked size h

    last : h1.last ≡ behind p b
    last = linked-last h prev p b size pos large limit ch.0 ch.1

    step : append_segment size h ≡ combine_backward (behind p b) h1
    step = append_segment-linked size h ∙ ap (λ q. combine_backward q h1) last

    whole : Chain h1.cell prev p h1.last b (fresh size ∷ [])
    whole = linked-Chain h prev p b size pos large limit ch.0 ch.1

-- expand_heap, once the pages are mapped, grows the list of blocks at its end.
pub append_segment-grow :
    (h : Heap) (prev p : Ptr) (b : Block) (bs : List Block) (size : ℕ)
    → 0 < p
    → header ≤ size
    → end_of p b bs + size < 2 ^ 64
    → Chain h.cell prev p h.last b bs
    → Leaves h prev p (grow (fresh size) b bs) (append_segment size h)
append_segment-grow h prev p b [] size pos large limit ch =
    append_last h prev p b size pos large limit ch
append_segment-grow h prev p b (d ∷ ds) size pos large limit ch =
    rw (grow-cons (fresh size) b d ds) (
      Leaves-cons h prev p b _ _ ch.0
        (append_segment-grow h p (behind p b) d ds size (omega arith) large limit ch.1))

pub end_of-grow :
    (r : Block) (p : Ptr) (b : Block) (bs : List Block)
    → end_of p (grow r b bs).0 (grow r b bs).1 ≡ end_of p b bs + (r.size + header)
end_of-grow r p b [] = elim (Bool-cases b.used) [
  | inl used ↦ rw (grow-used r b used) (omega arith)
  | inr unused ↦ rw (grow-free r b unused) (end_of-merge_next p b (r ∷ []) ∙ omega arith)
]
end_of-grow r p b (d ∷ ds) = rw (grow-cons r b d ds) (end_of-grow r (behind p b) d ds)

-- Some block of the grown heap is free and at least as large as the new one.
pub grow-HasFit :
    (size : ℕ) (r b : Block) (bs : List Block)
    → r.used ≡ false
    → size ≤ r.size
    → AllUnfit size (grow r b bs).0 (grow r b bs).1
    → ⊥
grow-HasFit size r b [] free large u = elim (Bool-cases b.used) [
  | inl used ↦ ground (arith, rw (grow-used r b used) at u)
  | inr unused ↦ ground (arith, rw (grow-free r b unused, merge_next-free b r [] free) at u)
]
grow-HasFit size r b (d ∷ ds) free large u =
    grow-HasFit size r d ds free large (rw (grow-cons r b d ds) at u).1
