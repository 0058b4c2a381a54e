-- ===== src/Mm/Heap/Wrap.antt =====
-- libk/src/utils/heap/{clone,krealloc}.c and libk/src/utils/xstr/to_xstr.c: copies of blocks, on the
-- heap and the memory of its blocks.
use limix.Base.{
  ℕ, ◌+◌, ◌-◌, ◌*◌, ◌/◌, ◌%◌, ◌^◌, ◌<◌, ◌≤◌, ◌≡◌, ◌⊎◌, ap, ◌∙◌, arith, ◌==◌, ltb, leb, ◌&&◌,
  if◌then◌else◌, List, some, fun_ext,
}
use limix.Base.Run.{Run, ok, ◌>>=◌}
use limix.Libk.Memory.{Mem, IsBytes, kmemset, kmemcpy}
use limix.Libk.Memory.Word.{filled, copied}
use limix.Libk.Memory.Fill.{kmemset-filled}
use limix.Libk.Memory.Copy.{Forward, kmemcpy-copied}
use limix.Libk.Strings.{min, kstrlen}
use limix.Mm.Heap.{Ptr, header, Heap, kfree}
use limix.Mm.Heap.Alloc.{Pages, round_up, kmalloc}
use limix.Mm.Heap.Chain.{Block}
use limix.Mm.Heap.Blocks.{Blocks, fit, header_of}
use limix.Mm.Heap.Free.{IsHeap}
use limix.Mm.Heap.RoundTrip.{kmalloc-fits}
use limix.Mm.Heap.Usage.{kzalloc}

-- `ALIGN_UP(n, 16)`
abbrev pub align_up : ℕ → ℕ
align_up n = (n + 15) % 2 ^ 64 / 16 * 16

-- `xstr_t`
pub record Xstr : Type 0 where
  pub length : ℕ
  pub cstr : Ptr

module _ (P : Pages) where
  unfoldable pub clone : Ptr → ℕ → Mem → Heap → P.State → Run (Ptr × Mem × Heap × P.State)
  clone p n m h s = do
    (np, h1, s1) ← kmalloc P (align_up n) h s
    ok (np, kmemcpy (kmemset m np 0 (align_up n)) np p n, h1, s1)

  -- The new size is `size`, the old one `old`.
  unfoldable pub krealloc : Ptr → ℕ → ℕ → Mem → Heap → P.State → Run (Ptr × Mem × Heap × P.State)
  krealloc p size old m h s =
      let made : Run (Ptr × Mem × Heap × P.State) = (do
        (n, m1, h1, s1) ← kzalloc P size m h s
        h2 ← kfree p h1
        ok (n, kmemcpy m1 n p (min size old), h2, s1)) in
      if size == old then ok (p, m, h, s) else made

  -- The fuel is for the two searches for the end of the string.
  unfoldable pub to_xstr : ℕ → Ptr → Mem → Heap → P.State → Run (Xstr × Mem × Heap × P.State)
  unfolding clone
  to_xstr fuel cstr m h s = do
    length ← kstrlen fuel m cstr
    (p, m1, h1, s1) ← clone cstr (length + 1) m h s
    ok (record { length = length; cstr = p }, m1, h1, s1)

-- The new block: the bytes of the old one, then zeros.
abbrev pub cloned : Mem → ℕ → ℕ → ℕ → Mem
cloned m a p n x =
    if leb a x && ltb x (a + n)
    then m (p + (x - a))
    else if leb a x && ltb x (a + align_up n)
    then 0
    else m x

clone_bytes :
    (m : Mem) (a p n : ℕ)
    → IsBytes m
    → n + 160 < 2 ^ 64
    → ((a + align_up n ≤ p) ⊎ (p + n ≤ a))
    → kmemcpy (kmemset m a 0 (align_up n)) a p n ≡ cloned m a p n
clone_bytes m a p n bytes small apart =
    ap (λ (o : Mem). kmemcpy o a p n) (kmemset-filled m a 0 (align_up n))
    ∙ kmemcpy-copied (filled m a 0 (align_up n)) a p n clear forward
    ∙ fun_ext λ x. at x
  where
    clear : IsBytes (filled m a 0 (align_up n))
    clear x = ground (arith, bytes x)

    forward : Forward a p n
    forward = ground (arith, apart)

    at : (x : ℕ) → copied (filled m a 0 (align_up n)) a p n x ≡ cloned m a p n x
    at x = ground (arith, apart)

-- On a well-formed heap, for a size of 1 to 2 ^ 64 - 161 for which first fit finds a block: where
-- memory holds bytes and the old block does not overlap the new one, clone returns a block that holds
-- the bytes of the old one with zeros behind them, and changes no other bytes. The heap stays
-- well-formed.
pub clone-cloned :
    (P : Pages) (h : Heap) (s : P.State) (b : Block) (bs : List Block) (m : Mem) (p n k : ℕ)
    (out : Blocks)
    → IsHeap h b bs
    → IsBytes m
    → 0 < n
    → n + 160 < 2 ^ 64
    → fit (round_up 0x10 (align_up n)) b bs ≡ some (k, out)
    → ((header_of k h.first b bs + header + align_up n ≤ p)
        ⊎ (p + n ≤ header_of k h.first b bs + header))
    → (h1 : Heap) × (clone P p n m h s
        ≡ ok (
          header_of k h.first b bs + header,
          cloned m (header_of k h.first b bs + header) p n,
          h1,
          s,
        ))
      × IsHeap h1 out.0 out.1
unfolding clone
clone-cloned P h s b bs m p n k out is bytes pos small found apart =
    let a = header_of k h.first b bs + header in
    let got = kmalloc-fits P h s b bs is (align_up n) k out (omega arith) (omega arith) found in
    (
      got.heap,
      rw (got.ran) (ap (λ q. ok (a, q, got.heap, s)) (clone_bytes m a p n bytes small apart)),
      got.blocks,
    )
