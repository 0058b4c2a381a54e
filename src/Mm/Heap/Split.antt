-- ===== src/Mm/Heap/Split.antt =====
-- _heap_split on a chain of headers, and the flag that kmalloc sets.
use limix.Base.{
  ℕ, ◌+◌, ◌-◌, ◌^◌, ◌≤◌, ◌<◌, ◌≡◌, refl, ap, ◌∙◌, arith, ◌==◌, true, false, inl, inr, if◌then◌else◌,
  List, [], ◌∷◌, ◌⊎◌,
}
use limix.Mm.Heap.{Ptr, null, header, Cells, write, set_used, cut}
use limix.Mm.Heap.Chain.{
  Block, block, segment, behind, Chain, end_of, end_of-le, next_of, Chain-head, Chain-rehead,
  Chain-le-last,
}

-- The address and the block of the rest.
abbrev rest_at : Ptr → ℕ → Ptr
rest_at p size = p + header + size

abbrev pub rest : Block → ℕ → Block
rest b size = block (b.size - size - header) false

-- The headers after a split and `seg->used = true`.
abbrev pub after_split : Cells → Ptr → Block → ℕ → Cells
after_split c p b size = set_used p true (cut p size (b.size - size - header) c)

module _ (c : Cells) (prev p : Ptr) (b : Block) (size : ℕ) (pos : 0 < p) (unused : b.used ≡ false)
    (room : size + header ≤ b.size) (limit : behind p b < 2 ^ 64) where
  split_here :
      (next : Ptr)
      → c p ≡ segment b prev next
      → (next ≡ null) ⊎ (next ≡ behind p b)
      → after_split c p b size p ≡ segment (block size true) prev (rest_at p size)
  unfolding cut set_used write
  split_here next at either = ground arith

  split_rest :
      (next : Ptr)
      → c p ≡ segment b prev next
      → (next ≡ null) ⊎ (next ≡ behind p b)
      → after_split c p b size (rest_at p size) ≡ segment (rest b size) p next
  unfolding cut set_used write
  split_rest next at either = ground arith

  split_next :
      (e : Block) (next : Ptr)
      → c p ≡ segment b prev (behind p b)
      → c (behind p b) ≡ segment e p next
      → after_split c p b size (behind p b) ≡ segment e (rest_at p size) next
  unfolding cut set_used write
  split_next e next at at_e = ground arith

  split_above :
      (x next : Ptr)
      → c p ≡ segment b prev next
      → (next ≡ null) ⊎ (next ≡ behind p b)
      → behind p b < x
      → after_split c p b size x ≡ c x
  unfolding cut set_used write
  split_above x next at either far = ground arith

  split_below :
      (x next : Ptr)
      → c p ≡ segment b prev next
      → (next ≡ null) ⊎ (next ≡ behind p b)
      → x < p
      → after_split c p b size x ≡ c x
  unfolding cut set_used write
  split_below x next at either low = ground arith

next-cases :
    (p : Ptr) (b : Block) (bs : List Block)
    → (next_of p b bs ≡ null) ⊎ (next_of p b bs ≡ behind p b)
next-cases p b [] = inl refl
next-cases p b (d ∷ bs) = inr refl

-- The chain after a split: the block itself in use, a free rest behind it, and the others.
pub split-Chain :
    (c : Cells) (prev p last : Ptr) (b : Block) (bs : List Block) (size : ℕ)
    → 0 < p
    → b.used ≡ false
    → size + header ≤ b.size
    → end_of p b bs < 2 ^ 64
    → Chain c prev p last b bs
    → Chain
        (after_split c p b size)
        prev
        p
        (if last == p then rest_at p size else last)
        (block size true)
        (rest b size ∷ bs)
split-Chain c prev p last b [] size pos unused room limit ch = (
  split_here c prev p b size pos unused room limit null ch.0 (inl refl),
  (split_rest c prev p b size pos unused room limit null ch.0 (inl refl), ground (arith, ch.1)),
)
split-Chain c prev p last b (d ∷ bs) size pos unused room limit ch = (
  split_here c prev p b size pos unused room inner r ch.0 (inr refl),
  rw (far) (
    split_rest c prev p b size pos unused room inner r ch.0 (inr refl)
        ∙ ap (segment (rest b size) p) at,
    rw (← at) (
        Chain-rehead c (after_split c p b size) p (rest_at p size) r last d d bs refl
          (split_next c prev p b size pos unused room inner d _ ch.0
            (Chain-head c p r last d bs ch.1))
          (λ x h. split_above c prev p b size pos unused room inner x r ch.0 (inr refl) h) ch.1),
  ),
)
  where
    r : Ptr
    r = behind p b

    inner : r < 2 ^ 64
    inner = omega (arith, end_of-le r d bs)

    far : (last == p) ≡ false
    far = ground (arith, Chain-le-last c p r last d bs ch.1)

    at : r ≡ behind (rest_at p size) (rest b size)
    at = omega arith

pub split-below :
    (c : Cells) (prev p last : Ptr) (b : Block) (bs : List Block) (size : ℕ)
    → 0 < p
    → b.used ≡ false
    → size + header ≤ b.size
    → end_of p b bs < 2 ^ 64
    → Chain c prev p last b bs
    → (x : Ptr) → x < p
    → after_split c p b size x ≡ c x
split-below c prev p last b bs size pos unused room limit ch x low =
    split_below c prev p b size pos unused room (omega (arith, end_of-le p b bs)) x _
      (Chain-head c prev p last b bs ch) (next-cases p b bs) low
