-- ===== src/Mm/Heap/Expand.antt =====
-- kmalloc where no block fits: expand_heap maps pages, and the second round of the call succeeds.
use limix.Base.{
  ℕ, zero, suc, ◌+◌, ◌-◌, ◌*◌, ◌/◌, ◌%◌, ◌^◌, ◌≤◌, ◌<◌, ◌≡◌, refl, sym, ap, ◌∙◌, arith, ◌==◌, false,
  inl, inr, List, ◌⊎◌, none, some, Option-cases,
}
use limix.Base.Run.{Run, ok, panic}
use mathlib.Core.Path.{subst}
use limix.Mm.Heap.{Ptr, null, wrap, header, Heap}
use limix.Mm.Heap.Alloc.{
  Pages, round_up, append_segment, walk, rounds, map_top, expand_heap, kmalloc_calls, kmalloc,
}
use limix.Mm.Heap.Chain.{Block}
use limix.Mm.Heap.Blocks.{Blocks, fit, grow}
use limix.Mm.Heap.Fit.{Fitted, fit-Fitted}
use limix.Mm.Heap.Free.{IsHeap}
use limix.Mm.Heap.Grow.{fresh, append_segment-grow, end_of-grow, grow-HasFit}
use limix.Mm.Heap.Walk.{Walked, walk-fit}
use limix.Mm.Heap.Malloc.{round_up_16, rounds_enough, Granted, kmalloc_calls-fits}

abbrev pub raise : ℕ → Heap → Heap
raise n h = record h { top = h.top + n * 0x1000 }

module _ (P : Pages) where
  open P use {State, request_page, map_page}

  map_top-step :
      (n : ℕ) (h : Heap) (s : State)
      → (map_top P (suc n) h s ≡ panic)
        ⊎ ((s2 : State) × (map_top P (suc n) h s
              ≡ map_top P n (record h { top = wrap (h.top + 0x1000) }) s2))
  unfolding map_top
  map_top-step n h s = elim (Option-cases (request_page s)) [
    | inl e ↦ inl (rw (e, map_top) refl)
    | inr ((p, s1), e) ↦ elim (Option-cases (map_page h.top p s1)) [
      | inl f ↦ inl (rw (e, f, map_top) refl)
      | inr (s2, f) ↦ inr (s2, rw (e, f, map_top) refl)
    ]
  ]

  -- The mapping loop moves the top of the heap and nothing else.
  map_top-raise :
      (n : ℕ) (h h1 : Heap) (s s1 : State)
      → h.top + n * 0x1000 < 2 ^ 64
      → map_top P n h s ≡ ok (h1, s1)
      → h1 ≡ raise n h
  unfolding map_top
  map_top-raise zero h h1 s s1 limit e = ground (arith, e)
  map_top-raise (suc n) h h1 s s1 limit e = elim (map_top-step n h s) [
    | inl p ↦ ground (arith, sym p ∙ e)
    | inr (s2, p) ↦
        let up : wrap (h.top + 0x1000) ≡ h.top + 0x1000 = omega arith in
        map_top-raise n _ h1 s2 s1 (omega arith) (sym p ∙ e)
        ∙ ap (λ t. record h { top = t }) (omega arith)
  ]

  expand_heap-ok :
      (size : ℕ) (h h1 h2 : Heap) (s s1 : State)
      → 0 < size
      → map_top P (round_up 0x1000 size / 0x1000) h s ≡ ok (h1, s1)
      → append_segment (round_up 0x1000 size) h1 ≡ ok h2
      → expand_heap P size h s ≡ ok (h2, s1)
  unfolding expand_heap
  expand_heap-ok size h h1 h2 s s1 pos mapped appended =
      let some_size : (size == 0) ≡ false = ground arith in
      rw (some_size, mapped, appended, expand_heap) refl

  kmalloc-second :
      (size : ℕ) (h h1 h2 : Heap) (s s1 : State)
      → (round_up 0x10 size == 0) ≡ false
      → walk (rounds h) (round_up 0x10 size) h.first h ≡ ok (none, h1)
      → expand_heap P (wrap (round_up 0x10 size + header)) h1 s ≡ ok (h2, s1)
      → kmalloc P size h s ≡ kmalloc_calls P 1 (round_up 0x10 size) h2 s1
  unfolding kmalloc kmalloc_calls
  kmalloc-second size h h1 h2 s s1 some_size walked expanded =
      rw (some_size, walked, expanded, kmalloc_calls) refl

-- The pages that an expansion for `size` bytes maps, in bytes.
abbrev pub growth : ℕ → ℕ
growth size = round_up 0x1000 (round_up 0x10 size + header)

pub growth_lem :
    (size : ℕ)
    → 0 < size
    → size + 0x2000 < 2 ^ 64
    → (round_up 0x10 size + header ≤ growth size)
      × (growth size % 0x1000 ≡ 0)
      × (growth size < size + 0x1040)
      × (round_up 0x10 (round_up 0x10 size) ≡ round_up 0x10 size)
unfolding round_up
growth_lem size pos small = (ground arith, ground arith, ground arith, ground arith)

-- First fit finds a block once there is one that is free and large enough.
fit-grow :
    (size n : ℕ) (b : Block) (bs : List Block)
    → size ≤ n - header
    → let (d, ds) = grow (fresh n) b bs in
      (k : ℕ) × (out : Blocks) × (fit size d ds ≡ some (k, out))
fit-grow size n b bs large =
    let (d, ds) = grow (fresh n) b bs in
    elim (Option-cases (fit size d ds)) [
      | inl e ↦ absurd (
          grow-HasFit size (fresh n) b bs refl large
            (subst (Fitted size 0 d ds) e (fit-Fitted size 0 d ds)))
      | inr ((k, out), e) ↦ (k, out, e)
    ]

module _ (h : Heap) (b : Block) (bs : List Block) (is : IsHeap h b bs) where
  -- The heap that the appended segment leaves.
  pub record Expanded (n : ℕ) (r : Run Heap) : Type 0 where
    pub heap : Heap
    pub ran : r ≡ ok heap
    pub blocks : IsHeap heap (grow (fresh n) b bs).0 (grow (fresh n) b bs).1

  -- expand_heap's segment lies behind the heap, and the heap with it is well formed.
  pub append_segment-IsHeap :
      (n : ℕ)
      → header ≤ n * 0x1000
      → h.top + n * 0x1000 < 2 ^ 64
      → Expanded (n * 0x1000) (append_segment (n * 0x1000) (raise n h))
  append_segment-IsHeap n large limit =
      let size = n * 0x1000 in
      let out =
        append_segment-grow (raise n h) null h.first b bs size is.start large
          (omega (arith, is.extent)) is.chain in
      record {
        heap = out.heap;
        ran = out.ran;
        blocks = record {
          chain = rw (out.first) out.chain;
          start = omega (arith, out.first, is.start);
          extent =
              rw (out.first)
                (end_of-grow (fresh size) h.first b bs ∙ omega (arith, is.extent, out.top));
          limit = omega (arith, out.top);
        };
      }

module _ (P : Pages) (h : Heap) (s : P.State) (b : Block) (bs : List Block)
    (is : IsHeap h b bs) where
  -- A call that mapped pages: the heap with the new block, and the block that was returned.
  pub record Grown (size : ℕ) (s1 : P.State) (r : Run (Ptr × Heap × P.State)) : Type 0 where
    pub larger : Heap
    pub blocks :
        IsHeap larger (grow (fresh (growth size)) b bs).0 (grow (fresh (growth size)) b bs).1
    pub k : ℕ
    pub out : Blocks
    pub found :
        fit
          (round_up 0x10 size)
          (grow (fresh (growth size)) b bs).0
          (grow (fresh (growth size)) b bs).1
        ≡ some (k, out)
    pub granted :
        Granted P larger s1
          (grow (fresh (growth size)) b bs).0
          (grow (fresh (growth size)) b bs).1
          blocks
          (round_up 0x10 size)
          k
          out
          r

  -- kmalloc at a size that it has rounded before.
  kmalloc_calls-rounded :
      (n k : ℕ) (out : Blocks)
      → 0 < n
      → n + 128 < 2 ^ 64
      → round_up 0x10 n ≡ n
      → fit n b bs ≡ some (k, out)
      → Granted P h s b bs is n k out (kmalloc_calls P 1 n h s)
  kmalloc_calls-rounded n k out pos small twice found =
      subst (λ m. Granted P h s b bs is m k out (kmalloc_calls P 1 n h s)) twice
        (kmalloc_calls-fits P h s b bs is 0 n k out pos small
          (subst (λ m. fit m b bs ≡ some (k, out)) (sym twice) found))

module _ (P : Pages) (h : Heap) (s : P.State) (b : Block) (bs : List Block)
    (is : IsHeap h b bs) where
  -- On a well-formed heap, for a positive size below 2 ^ 64 - 2 ^ 13 for which the heap can grow
  -- below 2 ^ 64: where first fit finds no block and the loop of expand_heap gets its pages,
  -- kmalloc returns a block that is large enough, first fit's choice on the blocks with the new
  -- free block at their end, and leaves a well-formed heap.
  pub kmalloc-grow :
      (size : ℕ) (h1 : Heap) (s1 : P.State)
      → 0 < size
      → size + 0x2000 < 2 ^ 64
      → h.top + growth size < 2 ^ 64
      → fit (round_up 0x10 size) b bs ≡ none
      → map_top P (growth size / 0x1000) h s ≡ ok (h1, s1)
      → Grown P h s b bs is size s1 (kmalloc P size h s)
  kmalloc-grow size h1 s1 pos small room full mapped =
      let n = round_up 0x10 size in
      let (fits, pages, bound, twice) = growth_lem size pos small in
      let (enough, low, _, _) = round_up_16 size pos (omega arith) in
      let whole : growth size / 0x1000 * 0x1000 ≡ growth size = omega arith in
      let raised : h1 ≡ raise (growth size / 0x1000) h =
        map_top-raise P (growth size / 0x1000) h h1 s s1 (omega arith) mapped in
      let big : Expanded h b bs is (growth size) (append_segment (growth size) h1) = rw raised (
        subst (λ g. Expanded h b bs is g (append_segment g (raise (growth size / 0x1000) h))) whole
          (append_segment-IsHeap h b bs is (growth size / 0x1000) (omega arith) (omega arith))) in
      let walked : walk (rounds h) n h.first h ≡ ok (none, h) =
        subst (λ o. Walked h null h.first b bs o (walk (rounds h) n h.first h)) full
          (walk-fit h n enough (omega arith) (rounds h) null h.first b bs (rounds_enough h b bs is)
            is.start (omega (arith, is.extent, is.limit)) is.chain) in
      let narrow : wrap (n + header) ≡ n + header = omega arith in
      let expanded : expand_heap P (wrap (n + header)) h s ≡ ok (big.heap, s1) =
        rw narrow (expand_heap-ok P (n + header) h h1 big.heap s s1 (omega arith) mapped big.ran) in
      let (k, out, found) = fit-grow n (growth size) b bs (omega arith) in
      record {
        larger = big.heap;
        blocks = big.blocks;
        k = k;
        out = out;
        found = found;
        granted = rw (kmalloc-second P size h h big.heap s s1 (ground arith) walked expanded) (
            kmalloc_calls-rounded P big.heap s1 _ _ big.blocks n k out (omega arith) (omega arith)
              twice found);
      }
