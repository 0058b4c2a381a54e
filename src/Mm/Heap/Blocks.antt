-- ===== src/Mm/Heap/Blocks.antt =====
-- The heap as a list of blocks, without addresses: what freeing and allocating mean.
use limix.Base.{
  ℕ, zero, suc, ◌+◌, ◌≡◌, refl, ap, ◌∙◌, ◌≤◌, ◌<◌, arith, ltb, leb, if◌then◌else◌, true, false,
  List, [], ◌∷◌, Bool-cases, inl, inr, Option, none, some, ◌-◌, ◌*◌, ◌⊎◌,
}
use limix.Mm.Heap.{Ptr, header}
use limix.Mm.Heap.Chain.{Block, block, behind, end_of}

abbrev pub Blocks : Type 0
Blocks = Block × List Block

-- Join a free block to the one before it.
unfoldable pub merge_next : Block → List Block → Blocks
merge_next b [] = (b, [])
merge_next b (d ∷ bs) =
    if d.used then (b, d ∷ bs) else (block (b.size + d.size + header) b.used, bs)

abbrev pub free_block : Block → Block
free_block b = block b.size false

-- Block number `k` becomes free, and is joined to the free blocks on both sides.
unfoldable pub release : ℕ → Block → List Block → Blocks
release zero b bs = merge_next (free_block b) bs
release (suc k) b [] = (b, [])
release (suc zero) b (d ∷ bs) =
    let (d', bs') = merge_next (free_block d) bs in
    if b.used then (b, d' ∷ bs') else merge_next b (d' ∷ bs')
release (suc (suc k)) b (d ∷ bs) = let (d', bs') = release (suc k) d bs in (b, d' ∷ bs')

pub merge_next-used :
    (b d : Block) (bs : List Block) → d.used ≡ true → merge_next b (d ∷ bs) ≡ (b, d ∷ bs)
unfolding merge_next
merge_next-used b d bs e = ground arith

pub merge_next-free :
    (b d : Block) (bs : List Block)
    → d.used ≡ false
    → merge_next b (d ∷ bs) ≡ (block (b.size + d.size + header) b.used, bs)
unfolding merge_next
merge_next-free b d bs e = ground arith

pub merge_next-nil : (b : Block) → merge_next b [] ≡ (b, [])
unfolding merge_next
merge_next-nil b = refl

-- The address of the header of block number `k`.
abbrev pub header_of : ℕ → Ptr → Block → List Block → Ptr
header_of zero p b bs = p
header_of (suc k) p b [] = p
header_of (suc k) p b (d ∷ bs) = header_of k (behind p b) d bs

-- The extent depends on the head only by where it ends.
pub end_of-head :
    (p p' : Ptr) (b b' : Block) (bs : List Block)
    → behind p b ≡ behind p' b'
    → end_of p b bs ≡ end_of p' b' bs
end_of-head p p' b b' [] e = e
end_of-head p p' b b' (d ∷ bs) e = ap (λ r. end_of r d bs) e

pub end_of-merge_next :
    (p : Ptr) (b : Block) (bs : List Block)
    → end_of p (merge_next b bs).0 (merge_next b bs).1 ≡ end_of p b bs
end_of-merge_next p b [] = rw (merge_next-nil b)
end_of-merge_next p b (d ∷ bs) = elim (Bool-cases d.used) [
  | inl used ↦ rw (merge_next-used b d bs used)
  | inr unused ↦
      rw (merge_next-free b d bs unused) (end_of-head p (behind p b) _ d bs (omega arith))
]

pub release-first : (b : Block) (bs : List Block) → release 0 b bs ≡ merge_next (free_block b) bs
unfolding release
release-first b bs = refl

pub release-none : (k : ℕ) (b : Block) → release (suc k) b [] ≡ (b, [])
unfolding release
release-none k b = refl

pub release-deeper :
    (k : ℕ) (b d : Block) (bs : List Block)
    → release (suc (suc k)) b (d ∷ bs) ≡ (b, (release (suc k) d bs).0 ∷ (release (suc k) d bs).1)
unfolding release
release-deeper k b d bs = refl

-- The two outcomes of freeing the second block.
pub release-second_used :
    (b d : Block) (bs : List Block)
    → b.used ≡ true
    → release 1 b (d ∷ bs)
      ≡ (b, (merge_next (free_block d) bs).0 ∷ (merge_next (free_block d) bs).1)
unfolding release
release-second_used b d bs e = ground arith

pub release-second_free :
    (b d : Block) (bs : List Block)
    → b.used ≡ false
    → release 1 b (d ∷ bs)
      ≡ merge_next b ((merge_next (free_block d) bs).0 ∷ (merge_next (free_block d) bs).1)
unfolding release
release-second_free b d bs e = ground arith

-- Freeing keeps the extent of the heap.
pub end_of-release :
    (k : ℕ) (p : Ptr) (b : Block) (bs : List Block)
    → end_of p (release k b bs).0 (release k b bs).1 ≡ end_of p b bs
end_of-release zero p b bs =
    rw (release-first b bs)
      (end_of-merge_next p (free_block b) bs ∙ end_of-head p p (free_block b) b bs refl)
end_of-release (suc k) p b [] = rw (release-none k b)
end_of-release (suc zero) p b (d ∷ bs) = elim (Bool-cases b.used) [
  | inl used ↦ rw (release-second_used b d bs used) rest
  | inr unused ↦ rw (release-second_free b d bs unused) (end_of-merge_next p b (d' ∷ bs') ∙ rest)
]
  where
    d' : Block
    d' = (merge_next (free_block d) bs).0

    bs' : List Block
    bs' = (merge_next (free_block d) bs).1

    rest : end_of (behind p b) d' bs' ≡ end_of (behind p b) d bs
    rest =
        end_of-merge_next (behind p b) (free_block d) bs
        ∙ end_of-head (behind p b) (behind p b) (free_block d) d bs refl
end_of-release (suc (suc k)) p b (d ∷ bs) =
    rw (release-deeper k b d bs) (end_of-release (suc k) (behind p b) d bs)

-- A block number and the blocks afterwards, seen from one block further left.
abbrev pub shift : Block → Option (ℕ × Blocks) → Option (ℕ × Blocks)
shift b none = none
shift b (some (k, (d, ds))) = some (suc k, (b, d ∷ ds))

-- First fit: the number of the block that is handed out, and the blocks afterwards. A block with
-- room for two more headers is cut in two.
unfoldable pub fit : ℕ → Block → List Block → Option (ℕ × Blocks)
fit size b [] =
    if b.used
    then none
    else if ltb (size + header * 2) b.size
    then some (0, (block size true, block (b.size - size - header) false ∷ []))
    else if leb size b.size
    then some (0, (block b.size true, []))
    else none
fit size b (d ∷ ds) =
    let next = shift b (fit size d ds) in
    if b.used
    then next
    else if ltb (size + header * 2) b.size
    then some (0, (block size true, block (b.size - size - header) false ∷ d ∷ ds))
    else if leb size b.size
    then some (0, (block b.size true, d ∷ ds))
    else next

-- What a block is to a request: too small or in use, large enough to cut, or just large enough.
abbrev pub Unfit : ℕ → Block → Type 0
Unfit size b = (b.used ≡ true) ⊎ (b.size < size)

pub record Large (size : ℕ) (b : Block) : Type 0 where
  pub unused : b.used ≡ false
  pub room : size + header * 2 < b.size

pub record Exact (size : ℕ) (b : Block) : Type 0 where
  pub unused : b.used ≡ false
  pub enough : size ≤ b.size
  pub tight : b.size ≤ size + header * 2

pub fit_cases : (size : ℕ) (b : Block) → Unfit size b ⊎ (Large size b ⊎ Exact size b)
fit_cases size b = elim (Bool-cases b.used) [
  | inl used ↦ inl (inl used)
  | inr unused ↦ elim (Bool-cases (ltb (size + header * 2) b.size)) [
    | inl room ↦ inr (inl (record { unused = unused; room = ground arith }))
    | inr small ↦ elim (Bool-cases (leb size b.size)) [
      | inl enough ↦
          inr (inr (record { unused = unused; enough = ground arith; tight = ground arith }))
      | inr short ↦ inl (inr (ground arith))
    ]
  ]
]

module _ (size : ℕ) (b : Block) where
  pub fit-last : Unfit size b → fit size b [] ≡ none
  unfolding fit
  fit-last u = ground arith

  pub fit-skip :
      (d : Block) (ds : List Block) → Unfit size b → fit size b (d ∷ ds) ≡ shift b (fit size d ds)
  unfolding fit
  fit-skip d ds u = ground arith

  pub fit-Large :
      (bs : List Block)
      → Large size b
      → fit size b bs ≡ some (0, (block size true, block (b.size - size - header) false ∷ bs))
  unfolding fit
  fit-Large [] l = ground arith
  fit-Large (d ∷ ds) l = ground arith

  pub fit-Exact :
      (bs : List Block) → Exact size b → fit size b bs ≡ some (0, (block b.size true, bs))
  unfolding fit
  fit-Exact [] x = ground arith
  fit-Exact (d ∷ ds) x = ground arith

-- A free block at the end of the heap, joined to the last block if that is free too.
unfoldable pub grow : Block → Block → List Block → Blocks
grow r b [] = if b.used then (b, r ∷ []) else merge_next b (r ∷ [])
grow r b (d ∷ ds) = let (d', ds') = grow r d ds in (b, d' ∷ ds')

pub grow-used : (r b : Block) → b.used ≡ true → grow r b [] ≡ (b, r ∷ [])
unfolding grow
grow-used r b e = ground arith

pub grow-free : (r b : Block) → b.used ≡ false → grow r b [] ≡ merge_next b (r ∷ [])
unfolding grow
grow-free r b e = ground arith

pub grow-cons :
    (r b d : Block) (ds : List Block) → grow r b (d ∷ ds) ≡ (b, (grow r d ds).0 ∷ (grow r d ds).1)
unfolding grow
grow-cons r b d ds = refl
