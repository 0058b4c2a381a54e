-- ===== src/Mm/Heap/RoundTrip.antt =====
-- kmalloc and kfree together, on a heap without two free blocks side by side.
use limix.Base.{
  ℕ, zero, suc, ◌+◌, ◌^◌, ◌≤◌, ◌<◌, ◌≡◌, refl, sym, ap, ◌∙◌, arith, List, [], ◌∷◌, length, some,
}
use limix.Base.Run.{ok}
use mathlib.Core.Path.{subst}
use limix.Mm.Heap.{Ptr, header, Heap, kfree}
use limix.Mm.Heap.Alloc.{Pages, round_up, kmalloc}
use limix.Mm.Heap.Chain.{Block, behind}
use limix.Mm.Heap.Blocks.{Blocks, fit, release, header_of}
use limix.Mm.Heap.Fit.{Chosen}
use limix.Mm.Heap.Free.{IsHeap, kfree-release}
use limix.Mm.Heap.Malloc.{Granted, kmalloc_calls-fits}
use limix.Mm.Heap.Coalesced.{Coalesced, Restores, fit-Restores}

-- The block that was handed out lies where it lay, and is among those afterwards.
Chosen-place :
    (size k : ℕ) (p : Ptr) (b b' : Block) (bs bs' : List Block)
    → Chosen size k b bs b' bs'
    → (k ≤ length bs') × (header_of k p b' bs' ≡ header_of k p b bs)
Chosen-place size zero p b b' bs bs' c = (omega arith, refl)
Chosen-place size (suc k) p b b' [] bs' c = absurd c
Chosen-place size (suc k) p b b' (d ∷ ds) [] c = absurd c
Chosen-place size (suc k) p b b' (d ∷ ds) (e ∷ es) (same, _, c) =
    let (short, at) = Chosen-place size k (behind p b) d e ds es c in (omega arith, rw same at)

module _ (P : Pages) (h : Heap) (s : P.State) (b : Block) (bs : List Block)
    (is : IsHeap h b bs) where
  -- On a well-formed heap, for a positive size below 2 ^ 64 - 128: where first fit finds a block
  -- for the size rounded up to 16, kmalloc maps no page, returns the address behind the header of
  -- that block, and leaves a well-formed heap of the blocks that first fit leaves. Every block
  -- before it is in use or too small and stays as it was, and the block is in use and large enough
  -- now.
  pub kmalloc-fits :
      (size k : ℕ) (out : Blocks)
      → 0 < size
      → size + 128 < 2 ^ 64
      → fit (round_up 0x10 size) b bs ≡ some (k, out)
      → Granted P h s b bs is (round_up 0x10 size) k out (kmalloc P size h s)
  unfolding kmalloc
  kmalloc-fits size k out pos small found =
      kmalloc_calls-fits P h s b bs is 1 size k out pos small found

  -- On a well-formed heap without two free neighbours, for a positive size below 2 ^ 64 - 128 for
  -- which first fit finds a block: kmalloc returns, kfree of what it returned does too, and the
  -- heap has the blocks that it had before.
  pub kmalloc-kfree :
      (size k : ℕ) (out : Blocks)
      → Coalesced b bs
      → 0 < size
      → size + 128 < 2 ^ 64
      → fit (round_up 0x10 size) b bs ≡ some (k, out)
      → (a : Ptr) × (h1 : Heap) × (h2 : Heap) × (kmalloc P size h s ≡ ok (a, h1, s))
        × (kfree a h1 ≡ ok h2)
        × IsHeap h2 b bs
  kmalloc-kfree size k out c pos small found =
      let n = round_up 0x10 size in
      let got = kmalloc-fits size k out pos small found in
      let (short, at) = Chosen-place n k h.first b out.0 bs out.1 got.chosen in
      let place : header_of k got.heap.first out.0 out.1 ≡ header_of k h.first b bs =
        ap (λ x. header_of k x out.0 out.1) got.first ∙ at in
      let (h2, freed, blocks) = kfree-release got.heap k out.0 out.1 got.blocks short in
      let back : release k out.0 out.1 ≡ (b, bs) =
        subst (Restores b bs) found (fit-Restores n b bs c) in
      (
        header_of k h.first b bs + header,
        got.heap,
        h2,
        got.ran,
        ap (λ x. kfree (x + header) got.heap) (sym place) ∙ freed,
        subst (λ q. IsHeap h2 q.0 q.1) back blocks,
      )
