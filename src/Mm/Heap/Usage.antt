-- ===== src/Mm/Heap/Usage.antt =====
-- kcalloc, kzalloc and the counters at the end of kernel/src/mm/heap.c.
use limix.Base.{
  ℕ, zero, suc, ◌+◌, ◌%◌, ◌^◌, ◌<◌, ◌≡◌, refl, ap, ◌∙◌, arith, false, not, ◌==◌, if◌then◌else◌,
  Bool-cases, inl, inr, List, [], ◌∷◌, length, some,
}
use limix.Base.Run.{Run, ok, panic, out_of_fuel, ◌>>=◌}
use limix.Libk.Memory.{Mem, kmemset}
use limix.Libk.Memory.Word.{filled}
use limix.Libk.Memory.Fill.{kmemset-filled}
use limix.Mm.Heap.{Ptr, null, header, Heap, canary_intact}
use limix.Mm.Heap.Alloc.{Pages, round_up, rounds, kmalloc}
use limix.Mm.Heap.Chain.{Block, segment, behind, Chain, canary-segment}
use limix.Mm.Heap.Blocks.{Blocks, fit, header_of}
use limix.Mm.Heap.Free.{IsHeap}
use limix.Mm.Heap.Malloc.{rounds_enough}
use limix.Mm.Heap.RoundTrip.{kmalloc-fits}

abbrev pub u32 : ℕ → ℕ
u32 x = x % 2 ^ 32

-- `while (c) { ... c = c->next; }`
unfoldable pub used_loop : ℕ → Ptr → Heap → ℕ → Run ℕ
used_loop zero c h used = out_of_fuel
used_loop (suc fuel) c h used =
    let seg = h.cell c in
    let used1 = u32 (used + header) in
    let used2 = if seg.used then u32 (used1 + seg.size) else used1 in
    let rest = used_loop fuel seg.next h used2 in
    if c == null then ok used else if not (canary_intact h.cell c) then panic else rest

-- A round for each segment, and one for the null pointer behind them.
unfoldable pub heap_get_used_old : Heap → Run ℕ
unfolding used_loop
heap_get_used_old h = used_loop (rounds h + 1) h.first h 0

-- `m` is the memory of the blocks; kmemset takes `value` as an i32.
module _ (P : Pages) where
  unfoldable pub kcalloc : ℕ → ℕ → Mem → Heap → P.State → Run (Ptr × Mem × Heap × P.State)
  kcalloc size value m h s = do
    (ptr, h1, s1) ← kmalloc P size h s
    ok (ptr, kmemset m ptr (u32 value) size, h1, s1)

  unfoldable pub kzalloc : ℕ → Mem → Heap → P.State → Run (Ptr × Mem × Heap × P.State)
  unfolding kcalloc
  kzalloc size = kcalloc size 0

unfoldable pub heap_get_used : Heap → ℕ
heap_get_used h = h.memory_used

unfoldable pub heap_get_free : Heap → ℕ
heap_get_free h = h.memory_free

unfoldable pub heap_get_overhead : Heap → ℕ
heap_get_overhead h = h.struct_overhead

-- The bytes of all headers, and of the blocks in use.
abbrev pub usage : Block → List Block → ℕ
usage b [] = header + (if b.used then b.size else 0)
usage b (d ∷ ds) = header + (if b.used then b.size else 0) + usage d ds

module _ (h : Heap) where
  used_loop-step :
      (fuel : ℕ) (prev p next : Ptr) (b : Block) (u : ℕ)
      → 0 < p
      → h.cell p ≡ segment b prev next
      → used_loop (suc fuel) p h (u32 u)
        ≡ used_loop fuel next h (u32 (u + (header + (if b.used then b.size else 0))))
  unfolding used_loop
  used_loop-step fuel prev p next b u pos at =
      let some_pointer : (p == null) ≡ false = ground arith in
      let intact = canary-segment h.cell p b prev next at in
      elim (Bool-cases b.used) [
        | inl used ↦
            let sum : u32 (u32 (u32 u + header) + b.size) ≡ u32 (u + (header + b.size)) =
              omega arith in
            rw (some_pointer, intact, at, used, sum, used_loop) refl
        | inr unused ↦
            let sum : u32 (u32 u + header) ≡ u32 (u + (header + 0)) = omega arith in
            rw (some_pointer, intact, at, unused, sum, used_loop) refl
      ]

  used_loop_end : (fuel u : ℕ) → used_loop (suc fuel) null h u ≡ ok u
  unfolding used_loop
  used_loop_end fuel u = refl

  used_loop-usage :
      (fuel : ℕ) (prev p : Ptr) (b : Block) (bs : List Block) (u : ℕ)
      → length bs + 1 < fuel
      → 0 < p
      → Chain h.cell prev p h.last b bs
      → used_loop fuel p h (u32 u) ≡ ok (u32 (u + usage b bs))
  used_loop-usage zero prev p b bs u enough pos ch = absurd (omega arith)
  used_loop-usage (suc zero) prev p b bs u enough pos ch = absurd (omega arith)
  used_loop-usage (suc (suc fuel)) prev p b [] u enough pos ch =
      used_loop-step (suc fuel) prev p null b u pos ch.0 ∙ used_loop_end fuel _
  used_loop-usage (suc (suc fuel)) prev p b (d ∷ ds) u enough pos ch =
      used_loop-step (suc fuel) prev p (behind p b) b u pos ch.0
      ∙ used_loop-usage (suc fuel) p (behind p b) d ds _ (omega arith) (omega arith) ch.1
      ∙ ap (λ x. ok (u32 x)) (omega arith)

-- On a well-formed heap heap_get_used_old returns the bytes of all headers and of the blocks in use,
-- as a u32.
pub heap_get_used_old-usage :
    (h : Heap) (b : Block) (bs : List Block)
    → IsHeap h b bs
    → heap_get_used_old h ≡ ok (u32 (usage b bs))
unfolding heap_get_used_old
heap_get_used_old-usage h b bs is =
    used_loop-usage h (rounds h + 1) null h.first b bs 0 (omega (arith, rounds_enough h b bs is))
      is.start is.chain
    ∙ ap (λ x. ok (u32 x)) (omega arith)

-- On a well-formed heap, for a positive size below 2 ^ 64 - 128 for which first fit finds a block:
-- kcalloc returns the address behind the header of that block, writes the low byte of `value` to
-- the `size` bytes from there on and to no others, and leaves a well-formed heap.
pub kcalloc-filled :
    (P : Pages) (h : Heap) (s : P.State) (b : Block) (bs : List Block) (m : Mem) (size value k : ℕ)
    (out : Blocks)
    → IsHeap h b bs
    → 0 < size
    → size + 128 < 2 ^ 64
    → fit (round_up 0x10 size) b bs ≡ some (k, out)
    → (h1 : Heap) × (kcalloc P size value m h s
        ≡ ok (
          header_of k h.first b bs + header,
          filled m (header_of k h.first b bs + header) (value % 256) size,
          h1,
          s,
        ))
      × IsHeap h1 out.0 out.1
unfolding kcalloc
kcalloc-filled P h s b bs m size value k out is pos small found =
    let got = kmalloc-fits P h s b bs is size k out pos small found in
    let a = header_of k h.first b bs + header in
    (
      got.heap,
      rw (got.ran) (
          ap (λ q. ok (a, q, got.heap, s))
            (kmemset-filled m a (u32 value) size ∙ ap (λ v. filled m a v size) (omega arith))),
      got.blocks,
    )
