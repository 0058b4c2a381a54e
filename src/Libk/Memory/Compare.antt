-- ===== src/Libk/Memory/Compare.antt =====
-- kmemcmp orders two blocks by the first byte that differs.
use limix.Base.{
  ℕ, zero, suc, ◌+◌, ◌<◌, ◌≡◌, refl, sym, arith, ltb, ◌==◌, Bool-cases, inl, inr, false, ==_iff,
}
use limix.Libk.Memory.{Mem, compare_loop, kmemcmp, minus_one}

-- The two blocks agree up to a byte at which `a` has the smaller one.
abbrev pub Before : Mem → ℕ → ℕ → ℕ → Type 0
Before m a b n =
    (i : ℕ) × (i < n) × ((j : ℕ) → j < i → m (a + j) ≡ m (b + j)) × (m (a + i) < m (b + i))

abbrev pub Same : Mem → ℕ → ℕ → ℕ → Type 0
Same m a b n = (i : ℕ) → i < n → m (a + i) ≡ m (b + i)

-- What each result says.
pub data Verdict (m : Mem) (a b n : ℕ) : ℕ → Type 0 where
  same : {r : ℕ} → r ≡ 0 → Same m a b n → Verdict m a b n r
  before : {r : ℕ} → r ≡ minus_one → Before m a b n → Verdict m a b n r
  after : {r : ℕ} → r ≡ 1 → Before m b a n → Verdict m a b n r

-- Blocks that agree at the first byte and behind it agree.
Same-suc : (m : Mem) (a b n : ℕ) → m a ≡ m b → Same m (a + 1) (b + 1) n → Same m a b (suc n)
Same-suc m a b n e all zero l = ground (arith, e)
Same-suc m a b n e all (suc i) l = ground (arith, all i (omega arith))

Before-suc : (m : Mem) (a b n : ℕ) → m a ≡ m b → Before m (a + 1) (b + 1) n → Before m a b (suc n)
Before-suc m a b n e (i, l, agree, less) =
    (suc i, omega arith, Same-suc m a b i e agree, ground (arith, less))

-- The verdict on the bytes behind an equal pair is the verdict on all.
Verdict-suc :
    (m : Mem) (a b n r : ℕ) → m a ≡ m b → Verdict m (a + 1) (b + 1) n r → Verdict m a b (suc n) r
Verdict-suc m a b n r e (same z all) = same z (Same-suc m a b n e all)
Verdict-suc m a b n r e (before z less) = before z (Before-suc m a b n e less)
Verdict-suc m a b n r e (after z less) = after z (Before-suc m b a n (sym e) less)

compare_loop-Verdict : (n : ℕ) (m : Mem) (a b : ℕ) → Verdict m a b n (compare_loop n m a b)
unfolding compare_loop
compare_loop-Verdict zero m a b = same refl (λ i l. absurd (omega arith))
compare_loop-Verdict (suc n) m a b = elim (Bool-cases (m a == m b)) [
  | inl equal ↦
      rw (equal, compare_loop)
        (Verdict-suc m a b n _ ((==_iff _ _).0 equal) (compare_loop-Verdict n m (a + 1) (b + 1)))
  | inr differ ↦ elim (Bool-cases (ltb (m a) (m b))) [
    | inl less ↦ rw (differ, less, compare_loop) (before refl (first a b (ground arith)))
    | inr more ↦ rw (differ, more, compare_loop) (after refl (first b a (ground arith)))
  ]
]
  where
    first : (p q : ℕ) → m p < m q → Before m p q (suc n)
    first p q l = (0, omega arith, λ j h. absurd (omega arith), ground (arith, l))

-- kmemcmp returns 0 where the blocks agree, -1 where the first block has the smaller byte at the
-- first difference, and 1 where the second has it.
pub kmemcmp-Verdict : (m : Mem) (s1 s2 n : ℕ) → Verdict m s1 s2 n (kmemcmp m s1 s2 n)
unfolding kmemcmp
kmemcmp-Verdict m s1 s2 zero = same refl (λ i l. absurd (omega arith))
kmemcmp-Verdict m s1 s2 (suc n) =
    let some_count : (suc n == 0) ≡ false = ground arith in
    rw some_count (compare_loop-Verdict (suc n) m s1 s2)
