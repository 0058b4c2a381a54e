-- ===== src/Mm/Heap/Chain.antt =====
-- The headers as a list of blocks: what they must say, and what survives a write.
use mathlib.Core.Path.{subst}
use limix.Base.{
  ℕ, ◌+◌, ◌≤◌, ◌<◌, ◌≡◌, refl, sym, ap, ◌∙◌, arith, ◌==◌, Bool, true, false, List, [], ◌∷◌,
}
use limix.Mm.Heap.{
  Ptr, null, heap_canary0, heap_canary1, Segment, header, Cells, write, canary_intact,
}

pub record Block : Type 0 where
  pub size : ℕ
  pub used : Bool

abbrev pub block : ℕ → Bool → Block
block n u = record { size = n; used = u }

abbrev pub segment : Block → Ptr → Ptr → Segment
segment b prev next = record {
  canary0 = heap_canary0;
  size = b.size;
  prev = prev;
  next = next;
  used = b.used;
  canary1 = heap_canary1;
}

-- The address behind block `b` at `p`.
abbrev pub behind : Ptr → Block → Ptr
behind p b = p + header + b.size

-- From `p` on the headers are those of `b` and `bs`, each right behind the block before it, linked
-- both ways. `prev` is the segment before `p`, `last` the last one.
abbrev pub Chain : Cells → (prev p last : Ptr) → Block → List Block → Type 0
Chain c prev p last b [] = (c p ≡ segment b prev null) × (last ≡ p)
Chain c prev p last b (d ∷ bs) =
    (c p ≡ segment b prev (behind p b)) × Chain c p (behind p b) last d bs

-- The address behind the last block.
abbrev pub end_of : Ptr → Block → List Block → Ptr
end_of p b [] = behind p b
end_of p b (d ∷ bs) = end_of (behind p b) d bs

pub end_of-le : (p : Ptr) (b : Block) (bs : List Block) → behind p b ≤ end_of p b bs
end_of-le p b [] = omega arith
end_of-le p b (d ∷ bs) = omega (arith, end_of-le (behind p b) d bs)

abbrev pub next_of : Ptr → Block → List Block → Ptr
next_of p b [] = null
next_of p b (d ∷ bs) = behind p b

pub Chain-head :
    (c : Cells) (prev p last : Ptr) (b : Block) (bs : List Block)
    → Chain c prev p last b bs
    → c p ≡ segment b prev (next_of p b bs)
Chain-head c prev p last b [] ch = ch.0
Chain-head c prev p last b (d ∷ bs) ch = ch.0

-- A chain lies at its own addresses: it survives any change below them.
pub Chain-frame :
    (c c' : Cells) (prev p last : Ptr) (b : Block) (bs : List Block)
    → ((x : Ptr) → p ≤ x → c' x ≡ c x)
    → Chain c prev p last b bs
    → Chain c' prev p last b bs
Chain-frame c c' prev p last b [] same ch = (same p (omega arith) ∙ ch.0, ch.1)
Chain-frame c c' prev p last b (d ∷ bs) same ch = (
  same p (omega arith) ∙ ch.0,
  Chain-frame c c' p (behind p b) last d bs (λ x h. same x (omega arith)) ch.1,
)

-- A chain with another header at its head, which agrees with the new head block.
pub Chain-rehead :
    (c c' : Cells) (prev prev' p last : Ptr) (b b' : Block) (bs : List Block)
    → b'.size ≡ b.size
    → c' p ≡ segment b' prev' (next_of p b bs)
    → ((x : Ptr) → p < x → c' x ≡ c x)
    → Chain c prev p last b bs
    → Chain c' prev' p last b' bs
Chain-rehead c c' prev prev' p last b b' [] size at same ch = (at, ch.1)
Chain-rehead c c' prev prev' p last b b' (d ∷ bs) size at same ch =
    let e : behind p b' ≡ behind p b = omega arith in
    rw e (at, Chain-frame c c' p (behind p b) last d bs (λ x h. same x (omega arith)) ch.1)

pub canary-segment :
    (c : Cells) (p : Ptr) (b : Block) (prev next : Ptr)
    → c p ≡ segment b prev next
    → canary_intact c p ≡ true
unfolding canary_intact
canary-segment c p b prev next e = ground (arith, e)

pub write_self : (c : Cells) (p : Ptr) (s : Segment) → write c p s p ≡ s
unfolding write
write_self c p s = ground arith

pub write_other : (c : Cells) (p x : Ptr) (s : Segment) → (x == p) ≡ false → write c p s x ≡ c x
unfolding write
write_other c p x s ne = rw ne

pub Chain-le-last :
    (c : Cells) (prev p last : Ptr) (b : Block) (bs : List Block)
    → Chain c prev p last b bs
    → p ≤ last
Chain-le-last c prev p last b [] ch = omega (arith, ch.1)
Chain-le-last c prev p last b (d ∷ bs) ch =
    omega (arith, Chain-le-last c p (behind p b) last d bs ch.1)

-- The headers determine the blocks.
segment-Block :
    (b b' : Block) (prev prev' next next' : Ptr)
    → segment b prev next ≡ segment b' prev' next'
    → (b ≡ b') × (next ≡ next')
segment-Block b b' prev prev' next next' e = (ap (λ s. block s.size s.used) e, ap (λ s. s.next) e)

pub Chain-unique :
    (c : Cells) (prev prev' p last last' : Ptr) (b b' : Block) (bs bs' : List Block)
    → Chain c prev p last b bs
    → Chain c prev' p last' b' bs'
    → (b ≡ b') × (bs ≡ bs')
Chain-unique c prev prev' p last last' b b' [] [] x y =
    ((segment-Block b b' prev prev' _ _ (sym x.0 ∙ y.0)).0, refl)
Chain-unique c prev prev' p last last' b b' [] (d ∷ ds) x y =
    let gap : null ≡ behind p b' = (segment-Block b b' prev prev' _ _ (sym x.0 ∙ y.0)).1 in
    absurd (omega (arith, gap))
Chain-unique c prev prev' p last last' b b' (d ∷ ds) [] x y =
    let gap : behind p b ≡ null = (segment-Block b b' prev prev' _ _ (sym x.0 ∙ y.0)).1 in
    absurd (omega (arith, gap))
Chain-unique c prev prev' p last last' b b' (d ∷ ds) (e ∷ es) x y =
    let (same, at) = segment-Block b b' prev prev' _ _ (sym x.0 ∙ y.0) in
    let (head, tail) =
      Chain-unique c p p (behind p b) last last' d e ds es x.1
        (subst (λ q. Chain c p q last' e es) (sym at) y.1) in
    (same, cons_eq d e ds es head tail)
  where
    cons_eq : (d e : Block) (ds es : List Block) → d ≡ e → ds ≡ es → (d ∷ ds) ≡ (e ∷ es)
    cons_eq d e ds es x y = ap (λ q. q ∷ ds) x ∙ ap (λ qs. e ∷ qs) y
