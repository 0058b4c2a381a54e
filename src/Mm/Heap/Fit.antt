-- ===== src/Mm/Heap/Fit.antt =====
-- What first fit on the blocks promises.
use limix.Base.{
  ℕ, zero, suc, ◌-◌, ◌≤◌, ◌≡◌, refl, arith, true, false, inl, inr, List, [], ◌∷◌, ◌⊎◌, Option, none,
  some,
}
use limix.Mm.Heap.{Ptr, header}
use limix.Mm.Heap.Chain.{Block, block, behind, end_of}
use limix.Mm.Heap.Blocks.{
  Blocks, shift, fit, Unfit, Large, Exact, fit_cases, fit-last, fit-skip, fit-Large, fit-Exact,
  end_of-head,
}

abbrev pub AllUnfit : ℕ → Block → List Block → Type 0
AllUnfit size b [] = Unfit size b
AllUnfit size b (d ∷ ds) = Unfit size b × AllUnfit size d ds

-- Block `k` was free and large enough, all blocks before it were unfit and are as they were, and
-- now it is in use and still large enough.
abbrev pub Chosen : ℕ → ℕ → Block → List Block → Block → List Block → Type 0
Chosen size zero b bs b' bs' =
    (b.used ≡ false) × (size ≤ b.size) × (b'.used ≡ true) × (size ≤ b'.size)
Chosen size (suc k) b [] b' bs' = ⊥
Chosen size (suc k) b (d ∷ ds) b' [] = ⊥
Chosen size (suc k) b (d ∷ ds) b' (e ∷ es) = (b' ≡ b) × Unfit size b × Chosen size k d ds e es

abbrev pub Fitted : ℕ → Ptr → Block → List Block → Option (ℕ × Blocks) → Type 0
Fitted size p b bs none = AllUnfit size b bs
Fitted size p b bs (some (k, out)) =
    Chosen size k b bs out.0 out.1 × (end_of p out.0 out.1 ≡ end_of p b bs)

Fitted-shift :
    (size : ℕ) (p : Ptr) (b d : Block) (ds : List Block) (o : Option (ℕ × Blocks))
    → Unfit size b
    → Fitted size (behind p b) d ds o
    → Fitted size p b (d ∷ ds) (shift b o)
Fitted-shift size p b d ds none u f = (u, f)
Fitted-shift size p b d ds (some (k, (e, es))) u f = ((refl, u, f.0), f.1)

Fitted-here :
    (size : ℕ) (p : Ptr) (b : Block) (bs : List Block)
    → (Large size b ⊎ Exact size b)
    → Fitted size p b bs (fit size b bs)
Fitted-here size p b bs (inl l) = rw (fit-Large size b bs l) (
  (l.unused, omega (arith, l.room), refl, omega arith),
  end_of-head (behind p (block size true)) p (block (b.size - size - header) false) b bs
      (omega (arith, l.room)),
)
Fitted-here size p b bs (inr x) =
    rw (fit-Exact size b bs x)
      ((x.unused, x.enough, refl, x.enough), end_of-head p p (block b.size true) b bs refl)

-- First fit refuses only if every block is in use or too small, and otherwise hands out the first
-- block that is neither, with the extent of the heap kept.
pub fit-Fitted :
    (size : ℕ) (p : Ptr) (b : Block) (bs : List Block) → Fitted size p b bs (fit size b bs)
fit-Fitted size p b [] = elim (fit_cases size b) [
  | inl u ↦ rw (fit-last size b u) u
  | inr f ↦ Fitted-here size p b [] f
]
fit-Fitted size p b (d ∷ ds) = elim (fit_cases size b) [
  | inl u ↦
      rw (fit-skip size b d ds u)
        (Fitted-shift size p b d ds _ u (fit-Fitted size (behind p b) d ds))
  | inr f ↦ Fitted-here size p b (d ∷ ds) f
]
