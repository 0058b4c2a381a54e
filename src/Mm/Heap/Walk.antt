-- ===== src/Mm/Heap/Walk.antt =====
-- The loop of kmalloc takes the first block that fits.
use limix.Base.{
  ℕ, zero, suc, ◌+◌, ◌-◌, ◌*◌, ◌^◌, ◌≤◌, ◌<◌, ◌≡◌, refl, ap, ◌∙◌, arith, ◌==◌, true, inl, inr,
  if◌then◌else◌, List, [], ◌∷◌, length, Option, none, some,
}
use limix.Base.Run.{Run, ok}
use limix.Mm.Heap.{Ptr, null, wrap, header, Heap, write, set_used, cut, heap_split, take}
use limix.Mm.Heap.Alloc.{walk}
use limix.Mm.Heap.Chain.{
  Block, block, segment, behind, Chain, end_of, end_of-le, Chain-head, Chain-rehead, canary-segment,
}
use limix.Mm.Heap.Blocks.{
  Blocks, shift, fit, header_of, Unfit, Large, Exact, fit_cases, fit-last, fit-skip, fit-Large,
  fit-Exact,
}
use limix.Mm.Heap.Split.{split-Chain, split-below}

module _ (h : Heap) (prev p : Ptr) (b : Block) (size : ℕ) (pos : 0 < p) (next : Ptr)
    (at : h.cell p ≡ segment b prev next) where
  walk-last :
      (fuel : ℕ)
      → Unfit size b
      → size + header * 2 < 2 ^ 64
      → next ≡ null
      → walk (suc fuel) size p h ≡ ok (none, h)
  unfolding walk
  walk-last fuel u small e = ground (arith, canary-segment h.cell p b prev next at)

  walk-skip :
      (fuel : ℕ)
      → Unfit size b
      → size + header * 2 < 2 ^ 64
      → 0 < next
      → walk (suc fuel) size p h ≡ walk fuel size next h
  unfolding walk
  walk-skip fuel u small e = ground (arith, canary-segment h.cell p b prev next at)

  walk-Exact :
      (fuel : ℕ)
      → Exact size b
      → size + header * 2 < 2 ^ 64
      → walk (suc fuel) size p h ≡ ok (some (wrap (p + header)), take p h)
  unfolding walk
  walk-Exact fuel x small = ground (arith, canary-segment h.cell p b prev next at)

  abbrev split_heap : Heap
  split_heap = record h {
    cell = cut p size (b.size - size - header) h.cell;
    last = if h.last == p then p + header + size else h.last;
    struct_overhead = wrap (h.struct_overhead + header);
  }

  heap_split-Large :
      Large size b → 0x10 ≤ size → behind p b < 2 ^ 64 → heap_split p size h ≡ ok split_heap
  unfolding heap_split
  heap_split-Large l enough limit = ground (arith, canary-segment h.cell p b prev next at)

  walk-Large :
      (fuel : ℕ)
      → Large size b
      → 0x10 ≤ size
      → behind p b < 2 ^ 64
      → walk (suc fuel) size p h ≡ ok (some (wrap (p + header)), take p split_heap)
  unfolding walk
  walk-Large fuel l enough limit =
      ground (arith, canary-segment h.cell p b prev next at, heap_split-Large l enough limit)

-- A walk that returned block number `k` of those from `p` on, with the chain as it left it.
pub record Allocated (h : Heap) (prev p : Ptr) (b : Block) (bs : List Block) (k : ℕ) (out : Blocks)
    (r : Run (Option Ptr × Heap)) : Type 0 where
  pub heap : Heap
  pub ran : r ≡ ok (some (header_of k p b bs + header), heap)
  pub chain : Chain heap.cell prev p heap.last out.0 out.1
  pub below : (x : Ptr) → x < p → heap.cell x ≡ h.cell x
  pub first : heap.first ≡ h.first
  pub top : heap.top ≡ h.top

-- What the walk comes to where first fit finds nothing, and where it finds a block.
abbrev pub Walked :
    Heap
    → (prev p : Ptr) → Block
    → List Block
    → Option (ℕ × Blocks)
    → Run (Option Ptr × Heap)
    → Type 0
Walked h prev p b bs none r = r ≡ ok (none, h)
Walked h prev p b bs (some (k, out)) r = Allocated h prev p b bs k out r

take-Chain :
    (h : Heap) (prev p : Ptr) (b : Block) (bs : List Block)
    → Chain h.cell prev p h.last b bs
    → Chain (take p h).cell prev p h.last (block b.size true) bs
unfolding take set_used write
take-Chain h prev p b bs ch =
    let at = Chain-head h.cell prev p h.last b bs ch in
    Chain-rehead h.cell (take p h).cell prev prev p h.last b (block b.size true) bs refl
      (ground (arith, at)) (λ x l. ground arith) ch

take-below : (h : Heap) (p x : Ptr) → x < p → (take p h).cell x ≡ h.cell x
unfolding take set_used write
take-below h p x l = ground arith

-- A block further right, seen from one block further left.
Walked-shift :
    (h : Heap) (prev p : Ptr) (b d : Block) (ds : List Block) (found : Option (ℕ × Blocks))
    (r : Run (Option Ptr × Heap))
    → h.cell p ≡ segment b prev (behind p b)
    → Walked h p (behind p b) d ds found r
    → Walked h prev p b (d ∷ ds) (shift b found) r
Walked-shift h prev p b d ds none r at w = w
Walked-shift h prev p b d ds (some (k, (e, es))) r at w = record {
  heap = w.heap;
  ran = w.ran;
  chain = (w.below p (omega arith) ∙ at, w.chain);
  below = λ x l. w.below x (omega arith);
  first = w.first;
  top = w.top;
}

module _ (h : Heap) (size : ℕ) (enough : 0x10 ≤ size) (small : size + header * 2 < 2 ^ 64) where
  Walked-Large :
      (fuel : ℕ) (prev p : Ptr) (b : Block) (bs : List Block)
      → 0 < p
      → end_of p b bs < 2 ^ 64
      → Chain h.cell prev p h.last b bs
      → Large size b
      → Walked h prev p b bs (fit size b bs) (walk (suc fuel) size p h)
  unfolding take
  Walked-Large fuel prev p b bs pos limit ch l =
      let at = Chain-head h.cell prev p h.last b bs ch in
      let inner : behind p b < 2 ^ 64 = omega (arith, end_of-le p b bs) in
      let room : size + header ≤ b.size = omega (arith, l.room) in
      rw (fit-Large size b bs l, walk-Large h prev p b size pos _ at fuel l enough inner)
        (record {
          heap = take p (split_heap h prev p b size pos _ at);
          ran = ap (λ a. ok (some a, take p (split_heap h prev p b size pos _ at))) (omega arith);
          chain = split-Chain h.cell prev p h.last b bs size pos (l.unused) room limit ch;
          below = split-below h.cell prev p h.last b bs size pos (l.unused) room limit ch;
          first = refl;
          top = refl;
        })

  Walked-Exact :
      (fuel : ℕ) (prev p : Ptr) (b : Block) (bs : List Block)
      → 0 < p
      → end_of p b bs < 2 ^ 64
      → Chain h.cell prev p h.last b bs
      → Exact size b
      → Walked h prev p b bs (fit size b bs) (walk (suc fuel) size p h)
  Walked-Exact fuel prev p b bs pos limit ch x =
      let at = Chain-head h.cell prev p h.last b bs ch in
      rw (fit-Exact size b bs x, walk-Exact h prev p b size pos _ at fuel x small)
        (record {
          heap = take p h;
          ran = ap (λ a. ok (some a, take p h)) (omega (arith, end_of-le p b bs));
          chain = unfold take in take-Chain h prev p b bs ch;
          below = take-below h p;
          first = unfold take in refl;
          top = unfold take in refl;
        })

  -- The walk from a segment on does first fit on the blocks from there on.
  pub walk-fit :
      (fuel : ℕ) (prev p : Ptr) (b : Block) (bs : List Block)
      → length bs < fuel
      → 0 < p
      → end_of p b bs < 2 ^ 64
      → Chain h.cell prev p h.last b bs
      → Walked h prev p b bs (fit size b bs) (walk fuel size p h)
  walk-fit zero prev p b bs rounds pos limit ch = absurd (omega arith)
  walk-fit (suc fuel) prev p b [] rounds pos limit ch = elim (fit_cases size b) [
    | inl u ↦ rw (fit-last size b u) (walk-last h prev p b size pos null ch.0 fuel u small refl)
    | inr (inl l) ↦ Walked-Large fuel prev p b [] pos limit ch l
    | inr (inr x) ↦ Walked-Exact fuel prev p b [] pos limit ch x
  ]
  walk-fit (suc fuel) prev p b (d ∷ ds) rounds pos limit ch = elim (fit_cases size b) [
    | inl u ↦
        let q = behind p b in
        rw (fit-skip size b d ds u, walk-skip h prev p b size pos q ch.0 fuel u small (omega arith))
          (Walked-shift h prev p b d ds (fit size d ds) _ ch.0
            (walk-fit fuel p q d ds (omega arith) (omega arith) limit ch.1))
    | inr (inl l) ↦ Walked-Large fuel prev p b (d ∷ ds) pos limit ch l
    | inr (inr x) ↦ Walked-Exact fuel prev p b (d ∷ ds) pos limit ch x
  ]
