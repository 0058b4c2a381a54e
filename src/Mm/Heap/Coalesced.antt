-- ===== src/Mm/Heap/Coalesced.antt =====
-- No two neighbouring blocks are both free: kmalloc and kfree keep it so, and then one undoes the
-- other.
use limix.Base.{
  ℕ, zero, suc, ◌-◌, ◌≡◌, refl, sym, ap, ◌∙◌, arith, true, false, Bool-cases, inl, inr, List, [],
  ◌∷◌, ◌⊎◌, Option, none, some,
}
use limix.Mm.Heap.{header}
use limix.Mm.Heap.Chain.{Block, block}
use limix.Mm.Heap.Fit.{Fitted, fit-Fitted}
use limix.Mm.Heap.Blocks.{
  Blocks, merge_next, merge_next-nil, merge_next-used, merge_next-free, free_block, release,
  release-first, release-none, release-deeper, release-second_used, release-second_free, shift, fit,
  Large, Exact, fit_cases, fit-last, fit-skip, fit-Large, fit-Exact, grow, grow-used, grow-free,
  grow-cons,
}

-- The block behind `b`, if there is one, is not free.
abbrev pub NextUsed : List Block → Type 0
NextUsed [] = Unit {0}
NextUsed (d ∷ ds) = d.used ≡ true

abbrev pub Coalesced : Block → List Block → Type 0
Coalesced b [] = Unit {0}
Coalesced b (d ∷ ds) = ((b.used ≡ true) ⊎ (d.used ≡ true)) × Coalesced d ds

free_NextUsed : (b : Block) (bs : List Block) → b.used ≡ false → Coalesced b bs → NextUsed bs
free_NextUsed b [] free c = tt
free_NextUsed b (d ∷ ds) free (inl used, c) = absurd (ground (arith, free, used))
free_NextUsed b (d ∷ ds) free (inr used, c) = used

merge_next-NextUsed : (b : Block) (bs : List Block) → NextUsed bs → merge_next b bs ≡ (b, bs)
merge_next-NextUsed b [] u = merge_next-nil b
merge_next-NextUsed b (d ∷ ds) u = merge_next-used b d ds u

free_block_same : (b : Block) → b.used ≡ false → free_block b ≡ b
free_block_same b free = ap (λ u. block b.size u) (sym free)

-- What first fit made of a block turns into the block again when that is freed.
abbrev pub Restores : Block → List Block → Option (ℕ × Blocks) → Type 0
Restores b bs none = Unit {0}
Restores b bs (some (k, out)) = release k out.0 out.1 ≡ (b, bs)

restore_first :
    (b : Block) (bs : List Block)
    → b.used ≡ false
    → Coalesced b bs
    → release 0 (block b.size true) bs ≡ (b, bs)
restore_first b bs free c =
    release-first (block b.size true) bs
    ∙ ap (λ d. merge_next d bs) (free_block_same b free)
    ∙ merge_next-NextUsed b bs (free_NextUsed b bs free c)

restore_cut :
    (size : ℕ) (b : Block) (bs : List Block)
    → Large size b
    → release 0 (block size true) (block (b.size - size - header) false ∷ bs) ≡ (b, bs)
restore_cut size b bs l =
    release-first (block size true) _
    ∙ merge_next-free (block size false) (block (b.size - size - header) false) bs refl
    ∙ ap (λ n. (block n false, bs)) (omega (arith, l.room))
    ∙ ap (λ d. (d, bs)) (free_block_same b l.unused)

Restores-here :
    (size : ℕ) (b : Block) (bs : List Block)
    → (Large size b ⊎ Exact size b)
    → Coalesced b bs
    → Restores b bs (fit size b bs)
Restores-here size b bs (inl l) c = rw (fit-Large size b bs l) (restore_cut size b bs l)
Restores-here size b bs (inr x) c = rw (fit-Exact size b bs x) (restore_first b bs x.unused c)

Restores-shift :
    (size : ℕ) (b d : Block) (ds : List Block) (o : Option (ℕ × Blocks))
    → Coalesced b (d ∷ ds)
    → Fitted size 0 d ds o
    → Restores d ds o
    → Restores b (d ∷ ds) (shift b o)
Restores-shift size b d ds none c f r = tt
Restores-shift size b d ds (some (zero, (e, es))) (inl used, c) f r =
    let back : merge_next (free_block e) es ≡ (d, ds) = sym (release-first e es) ∙ r in
    release-second_used b e es used ∙ ap (λ q. (b, q.0 ∷ q.1)) back
Restores-shift size b d ds (some (zero, (e, es))) (inr used, c) f r =
    absurd (ground (arith, used, f.0.0))
Restores-shift size b d ds (some (suc k, (e, es))) c f r =
    release-deeper k b e es ∙ ap (λ q. (b, q.0 ∷ q.1)) r

-- Freeing the block that first fit handed out brings the blocks back as they were.
pub fit-Restores :
    (size : ℕ) (b : Block) (bs : List Block) → Coalesced b bs → Restores b bs (fit size b bs)
fit-Restores size b [] c = elim (fit_cases size b) [
  | inl u ↦ rw (fit-last size b u) tt
  | inr f ↦ Restores-here size b [] f c
]
fit-Restores size b (d ∷ ds) c = elim (fit_cases size b) [
  | inl u ↦ rw (fit-skip size b d ds u) (
      Restores-shift size b d ds (fit size d ds) c (fit-Fitted size 0 d ds)
        (fit-Restores size d ds c.1))
  | inr f ↦ Restores-here size b (d ∷ ds) f c
]

abbrev CoalescedTail : List Block → Type 0
CoalescedTail [] = Unit {0}
CoalescedTail (d ∷ ds) = Coalesced d ds

Coalesced-tail : (b : Block) (bs : List Block) → Coalesced b bs → CoalescedTail bs
Coalesced-tail b [] c = tt
Coalesced-tail b (d ∷ ds) c = c.1

Coalesced-cons : (b : Block) (bs : List Block) → NextUsed bs → CoalescedTail bs → Coalesced b bs
Coalesced-cons b [] u c = tt
Coalesced-cons b (d ∷ ds) u c = (inr u, c)

merge_next-Coalesced :
    (b : Block) (bs : List Block)
    → CoalescedTail bs
    → Coalesced (merge_next b bs).0 (merge_next b bs).1
merge_next-Coalesced b [] c = rw (merge_next-nil b) tt
merge_next-Coalesced b (d ∷ ds) c = elim (Bool-cases d.used) [
  | inl used ↦ rw (merge_next-used b d ds used) (inr used, c)
  | inr unused ↦
      rw (merge_next-free b d ds unused)
        (Coalesced-cons _ ds (free_NextUsed d ds unused c) (Coalesced-tail d ds c))
]

merge_next-head : (b : Block) (bs : List Block) → ((merge_next b bs).0).used ≡ b.used
unfolding merge_next
merge_next-head b [] = refl
merge_next-head b (d ∷ ds) = ground arith

-- Freeing a later block leaves the flag of the first.
release-head : (k : ℕ) (b : Block) (bs : List Block) → ((release (suc k) b bs).0).used ≡ b.used
release-head k b [] = rw (release-none k b) refl
release-head zero b (d ∷ ds) = elim (Bool-cases b.used) [
  | inl used ↦ rw (release-second_used b d ds used) refl
  | inr unused ↦ ap (λ q. (q.0).used) (release-second_free b d ds unused) ∙ merge_next-head b _
]
release-head (suc k) b (d ∷ ds) = rw (release-deeper k b d ds) refl

-- kfree leaves no two free blocks side by side.
pub release-Coalesced :
    (k : ℕ) (b : Block) (bs : List Block)
    → Coalesced b bs
    → Coalesced (release k b bs).0 (release k b bs).1
release-Coalesced zero b bs c =
    rw (release-first b bs) (merge_next-Coalesced (free_block b) bs (Coalesced-tail b bs c))
release-Coalesced (suc k) b [] c = rw (release-none k b) tt
release-Coalesced (suc zero) b (d ∷ ds) c =
    let rest = merge_next-Coalesced (free_block d) ds (Coalesced-tail d ds c.1) in
    elim (Bool-cases b.used) [
      | inl used ↦ rw (release-second_used b d ds used) (inl used, rest)
      | inr unused ↦ rw (release-second_free b d ds unused) (merge_next-Coalesced b _ rest)
    ]
release-Coalesced (suc (suc k)) b (d ∷ ds) c =
    rw (release-deeper k b d ds, release-head k d ds) (c.0, release-Coalesced (suc k) d ds c.1)

abbrev pub Keeps : Option (ℕ × Blocks) → Type 0
Keeps none = Unit {0}
Keeps (some (k, out)) = Coalesced out.0 out.1

Keeps-shift :
    (size : ℕ) (b d : Block) (ds : List Block) (o : Option (ℕ × Blocks))
    → Coalesced b (d ∷ ds)
    → Fitted size 0 d ds o
    → Keeps o
    → Keeps (shift b o)
Keeps-shift size b d ds none c f r = tt
Keeps-shift size b d ds (some (zero, (e, es))) c f r = (inr (f.0.2), r)
Keeps-shift size b d [] (some (suc k, (e, es))) c (f, _) r = absurd f
Keeps-shift size b d (g ∷ gs) (some (suc k, (e, []))) c (f, _) r = absurd f
Keeps-shift size b d (g ∷ gs) (some (suc k, (e, i ∷ is))) c f r = (rw (f.0.0) (c.0), r)

Keeps-here :
    (size : ℕ) (b : Block) (bs : List Block)
    → (Large size b ⊎ Exact size b)
    → Coalesced b bs
    → Keeps (fit size b bs)
Keeps-here size b bs (inl l) c =
    rw (fit-Large size b bs l)
      (inl refl, Coalesced-cons _ bs (free_NextUsed b bs l.unused c) (Coalesced-tail b bs c))
Keeps-here size b bs (inr x) c =
    rw (fit-Exact size b bs x)
      (Coalesced-cons _ bs (free_NextUsed b bs x.unused c) (Coalesced-tail b bs c))

-- First fit leaves no two free blocks side by side.
pub fit-Keeps : (size : ℕ) (b : Block) (bs : List Block) → Coalesced b bs → Keeps (fit size b bs)
fit-Keeps size b [] c = elim (fit_cases size b) [
  | inl u ↦ rw (fit-last size b u) tt
  | inr f ↦ Keeps-here size b [] f c
]
fit-Keeps size b (d ∷ ds) c = elim (fit_cases size b) [
  | inl u ↦
      rw (fit-skip size b d ds u) (
        Keeps-shift size b d ds (fit size d ds) c (fit-Fitted size 0 d ds)
          (fit-Keeps size d ds c.1))
  | inr f ↦ Keeps-here size b (d ∷ ds) f c
]

grow-head : (r b : Block) (bs : List Block) → ((grow r b bs).0).used ≡ b.used
grow-head r b [] = elim (Bool-cases b.used) [
  | inl used ↦ rw (grow-used r b used) refl
  | inr unused ↦ ap (λ q. (q.0).used) (grow-free r b unused) ∙ merge_next-head b _
]
grow-head r b (d ∷ ds) = rw (grow-cons r b d ds) refl

-- A new block at the end leaves no two free blocks side by side.
pub grow-Coalesced :
    (r b : Block) (bs : List Block) → Coalesced b bs → Coalesced (grow r b bs).0 (grow r b bs).1
grow-Coalesced r b [] c = elim (Bool-cases b.used) [
  | inl used ↦ rw (grow-used r b used) (inl used, tt)
  | inr unused ↦ rw (grow-free r b unused) (merge_next-Coalesced b (r ∷ []) tt)
]
grow-Coalesced r b (d ∷ ds) c =
    rw (grow-cons r b d ds, grow-head r d ds) (c.0, grow-Coalesced r d ds c.1)
