-- ===== src/Mm/Heap/Combine.antt =====
-- _heap_combine_forward and _heap_combine_backward on a chain of headers.
use limix.Base.{
  ◌+◌, ◌^◌, ◌<◌, ◌≡◌, refl, arith, ◌==◌, true, false, Bool-cases, inl, inr, if◌then◌else◌, List, [],
  ◌∷◌,
}
use limix.Base.Run.{Run, ok}
use limix.Mm.Heap.{
  Ptr, null, wrap, sub64, header, Heap, Cells, canary_intact, absorb, combine_forward,
}
use limix.Mm.Heap.Chain.{
  Block, block, segment, behind, Chain, end_of, end_of-le, next_of, Chain-head, Chain-rehead,
  Chain-le-last, canary-segment,
}
use limix.Mm.Heap.Blocks.{Blocks, merge_next, merge_next-nil, merge_next-used, merge_next-free}

-- A call that returned, with the chain from `p` on as it left it: nothing below `p` was written.
pub record Leaves (h : Heap) (prev p : Ptr) (bs : Blocks) (r : Run Heap) : Type 0 where
  pub heap : Heap
  pub ran : r ≡ ok heap
  pub chain : Chain heap.cell prev p heap.last bs.0 bs.1
  pub below : (x : Ptr) → x < p → heap.cell x ≡ h.cell x
  pub first : heap.first ≡ h.first
  pub top : heap.top ≡ h.top

abbrev joined : Block → Block → Block
joined b d = block (b.size + d.size + header) b.used

module _ (c : Cells) (prev p last : Ptr) (b d : Block) (pos : 0 < p) where
  absorb_last :
      c p ≡ segment b prev (behind p b)
      → c (behind p b) ≡ segment d p null
      → behind (behind p b) d < 2 ^ 64
      → absorb p (behind p b) c p ≡ segment (joined b d) prev null
  unfolding absorb
  absorb_last at_p at_n limit = ground arith

  absorb_inner :
      c p ≡ segment b prev (behind p b)
      → c (behind p b) ≡ segment d p (behind (behind p b) d)
      → behind (behind p b) d < 2 ^ 64
      → absorb p (behind p b) c p ≡ segment (joined b d) prev (behind p (joined b d))
  unfolding absorb
  absorb_inner at_p at_n limit = ground arith

  absorb_after :
      (next : Ptr) (e : Block)
      → c (behind p b) ≡ segment d p (behind (behind p b) d)
      → c (behind (behind p b) d) ≡ segment e (behind p b) next
      → absorb p (behind p b) c (behind (behind p b) d) ≡ segment e p next
  unfolding absorb
  absorb_after next e at_n at_e = ground arith

  absorb_above :
      (x : Ptr)
      → c (behind p b) ≡ segment d p (behind (behind p b) d)
      → behind (behind p b) d < x
      → absorb p (behind p b) c x ≡ c x
  unfolding absorb
  absorb_above x at_n far = ground arith

absorb-Chain :
    (c : Cells) (prev p last : Ptr) (b d : Block) (bs : List Block)
    → 0 < p
    → end_of p b (d ∷ bs) < 2 ^ 64
    → Chain c prev p last b (d ∷ bs)
    → Chain
        (absorb p (behind p b) c)
        prev
        p
        (if behind p b == last then p else last)
        (joined b d)
        bs
absorb-Chain c prev p last b d [] pos limit ch =
    (absorb_last c prev p last b d pos ch.0 ch.1.0 limit, ground (arith, ch.1.1))
absorb-Chain c prev p last b d (e ∷ bs) pos limit ch =
    let q = behind p b in
    let r = behind q d in
    let inner : r < 2 ^ 64 = omega (arith, end_of-le r e bs) in
    let far : (q == last) ≡ false = ground (arith, Chain-le-last c q r last e bs ch.1.1) in
    let at : r ≡ behind p (joined b d) = omega arith in
    rw far (
      absorb_inner c prev p last b d pos ch.0 ch.1.0 inner,
      rw (← at) (
          Chain-rehead c (absorb p q c) q p r last e e bs refl
            (absorb_after c prev p last b d pos (next_of r e bs) e ch.1.0
              (Chain-head c q r last e bs ch.1.1))
            (λ x h. absorb_above c prev p last b d pos x ch.1.0 h) ch.1.1),
    )

absorb-below :
    (c : Cells) (prev p last : Ptr) (b d : Block) (bs : List Block)
    → Chain c prev p last b (d ∷ bs)
    → (x : Ptr) → x < p
    → absorb p (behind p b) c x ≡ c x
unfolding absorb
absorb-below c prev p last b d bs ch x h =
    ground (arith, Chain-head c p (behind p b) last d bs ch.1)

-- _heap_combine_forward at a segment of a chain joins it to the next one if that is free.
pub combine_forward_lem :
    (h : Heap) (prev p : Ptr) (b : Block) (bs : List Block)
    → 0 < p
    → end_of p b bs < 2 ^ 64
    → Chain h.cell prev p h.last b bs
    → Leaves h prev p (merge_next b bs) (combine_forward p h)
unfolding combine_forward
combine_forward_lem h prev p b [] pos limit ch = rw (merge_next-nil b) (record {
  heap = h;
  ran = ground (arith, ch.0, canary-segment h.cell p b prev null ch.0);
  chain = ch;
  below = λ x l. refl;
  first = refl;
  top = refl;
})
combine_forward_lem h prev p b (d ∷ bs) pos limit ch = elim (Bool-cases d.used) [
  | inl used ↦ rw (merge_next-used b d bs used) (record {
    heap = h;
    ran = ground (arith, ch.0, at_n, intact_p, intact_n);
    chain = ch;
    below = λ x l. refl;
    first = refl;
    top = refl;
  })
  | inr unused ↦ rw (merge_next-free b d bs unused) (record {
    heap = record h {
      cell = absorb p (behind p b) h.cell;
      last = if behind p b == h.last then p else h.last;
      memory_free = wrap (h.memory_free + header);
      memory_used = sub64 h.memory_used header;
      struct_overhead = wrap (h.struct_overhead + header);
    };
    ran = ground (arith, ch.0, at_n, intact_p, intact_n, end_of-le (behind p b) d bs);
    chain = absorb-Chain h.cell prev p h.last b d bs pos limit ch;
    below = absorb-below h.cell prev p h.last b d bs ch;
    first = refl;
    top = refl;
  })
]
  where
    at_n : h.cell (behind p b) ≡ segment d p (next_of (behind p b) d bs)
    at_n = Chain-head h.cell p (behind p b) h.last d bs ch.1

    intact_p : canary_intact h.cell p ≡ true
    intact_p = canary-segment h.cell p b prev (behind p b) ch.0

    intact_n : canary_intact h.cell (behind p b) ≡ true
    intact_n = canary-segment h.cell (behind p b) d p (next_of (behind p b) d bs) at_n
