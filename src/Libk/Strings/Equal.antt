-- ===== src/Libk/Strings/Equal.antt =====
-- kstrncmp and kstrnlcmp on strings.
use limix.Base.{
  ℕ, zero, suc, ◌+◌, ◌^◌, ◌≤◌, ◌<◌, ◌≡◌, refl, ap, ◌∙◌, arith, Bool, true, false, ◌==◌, not,
  if◌then◌else◌, Bool-cases, inl, inr, List, [], ◌∷◌, length,
}
use limix.Base.Run.{ok}
use limix.Libk.Memory.{Mem}
use limix.Libk.Strings.{min, i32_rounds, same_loop, kstrncmp, kstrnlcmp}
use limix.Libk.Strings.Text.{Text, kstrlen-length}

-- The first `k` bytes of two strings that have as many are the same.
abbrev pub starts_same : ℕ → List ℕ → List ℕ → Bool
starts_same zero xs ys = true
starts_same (suc k) [] ys = true
starts_same (suc k) (x ∷ xs) [] = true
starts_same (suc k) (x ∷ xs) (y ∷ ys) = if x == y then starts_same k xs ys else false

-- Two strings agree in their first `n` bytes, or both end before with the same bytes.
abbrev pub agree : ℕ → List ℕ → List ℕ → Bool
agree zero xs ys = true
agree (suc n) [] [] = true
agree (suc n) [] (y ∷ ys) = false
agree (suc n) (x ∷ xs) [] = false
agree (suc n) (x ∷ xs) (y ∷ ys) = if x == y then agree n xs ys else false

same_loop-starts_same :
    (k : ℕ) (xs ys : List ℕ) (m : Mem) (a b : ℕ)
    → Text m a xs
    → Text m b ys
    → k ≤ length xs
    → k ≤ length ys
    → same_loop k m a b ≡ starts_same k xs ys
unfolding same_loop
same_loop-starts_same zero xs ys m a b s t la lb = refl
same_loop-starts_same (suc k) [] ys m a b s t la lb = absurd (omega arith)
same_loop-starts_same (suc k) (x ∷ xs) [] m a b s t la lb = absurd (omega arith)
same_loop-starts_same (suc k) (x ∷ xs) (y ∷ ys) m a b (sx, px, s) (ty, py, t) la lb =
    elim (Bool-cases (x == y)) [
      | inl equal ↦
          let here : (m a == m b) ≡ true = ground (arith, sx, ty, equal) in
          rw (here, equal, same_loop)
            (same_loop-starts_same k xs ys m (a + 1) (b + 1) s t (omega arith) (omega arith))
      | inr differ ↦
          let here : (m a == m b) ≡ false = ground (arith, sx, ty, differ) in
          rw (here, differ, same_loop) refl
    ]

min-le : (a b : ℕ) → (min a b ≤ a) × (min a b ≤ b)
min-le a b = (ground arith, ground arith)

i32_rounds_small : (l : ℕ) → l < 2 ^ 31 → i32_rounds l ≡ l
unfolding i32_rounds
i32_rounds_small l small = ground arith

-- The comparison by lengths and bytes is `agree`.
starts_same-agree :
    (n : ℕ) (xs ys : List ℕ)
    → (if not (min (length xs) n == min (length ys) n)
        then false
        else starts_same (min (min (length xs) (length ys)) n) xs ys)
      ≡ agree n xs ys
starts_same-agree zero xs ys =
    let e : (min (length xs) 0 == min (length ys) 0) ≡ true = ground arith in
    let z : min (min (length xs) (length ys)) 0 ≡ 0 = ground arith in rw (e, z) refl
starts_same-agree (suc n) [] [] = ground arith
starts_same-agree (suc n) [] (y ∷ ys) = ground arith
starts_same-agree (suc n) (x ∷ xs) [] = ground arith
starts_same-agree (suc n) (x ∷ xs) (y ∷ ys) =
    let k : min (min (suc (length xs)) (suc (length ys))) (suc n)
        ≡ suc (min (min (length xs) (length ys)) n) =
      ground arith in
    let e : (min (suc (length xs)) (suc n) == min (suc (length ys)) (suc n))
        ≡ (min (length xs) n == min (length ys) n) =
      ground arith in
    elim (Bool-cases (x == y)) [
      | inl equal ↦ rw (k, e, equal) (starts_same-agree n xs ys)
      | inr differ ↦ ground (arith, k, differ)
    ]

module _ (fuel : ℕ) (m : Mem) (a b : ℕ) (xs ys : List ℕ) (at_a : Text m a xs) (at_b : Text m b ys)
    (pos_a : 0 < a) (pos_b : 0 < b) (enough_a : length xs < fuel)
    (enough_b : length ys < fuel) where
  -- On two strings at non-null pointers, with fuel for the bytes of each and the 0, kstrnlcmp
  -- returns whether the lengths agree as far as `l`, and the bytes as far as `n` and the shorter
  -- string reach, where fewer than 2 ^ 31 bytes are compared.
  pub kstrnlcmp-starts_same :
      (n l : ℕ)
      → min (min (length xs) (length ys)) n < 2 ^ 31
      → kstrnlcmp fuel m a b n l
        ≡ ok (
            if not (min (length xs) l == min (length ys) l)
            then false
            else starts_same (min (min (length xs) (length ys)) n) xs ys)
  unfolding kstrnlcmp
  kstrnlcmp-starts_same n l small =
      let k = min (min (length xs) (length ys)) n in
      let (below, _) = min-le (min (length xs) (length ys)) n in
      let (la, lb) = min-le (length xs) (length ys) in
      rw
        (
          kstrlen-length xs fuel m a at_a pos_a enough_a,
          kstrlen-length ys fuel m b at_b pos_b enough_b,
        )
        (ap (λ r. ok (if not (min (length xs) l == min (length ys) l) then false else r))
          (ap (λ r. same_loop r m a b) (i32_rounds_small k small)
            ∙ same_loop-starts_same k xs ys m a b at_a at_b (omega arith) (omega arith)))

  -- On two strings at non-null pointers, with fuel for the bytes of each and the 0, kstrncmp
  -- returns whether they agree in their first `n` bytes, where fewer than 2 ^ 31 bytes are
  -- compared.
  pub kstrncmp-agree :
      (n : ℕ)
      → min (min (length xs) (length ys)) n < 2 ^ 31
      → kstrncmp fuel m a b n ≡ ok (agree n xs ys)
  unfolding kstrncmp kstrnlcmp
  kstrncmp-agree n small = kstrnlcmp-starts_same n n small ∙ ap ok (starts_same-agree n xs ys)
