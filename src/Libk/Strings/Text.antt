-- ===== src/Libk/Strings/Text.antt =====
-- Strings in memory: kstrlen finds their length and kstrnext the first place of a byte.
use limix.Base.{
  ℕ, zero, suc, ◌+◌, ◌<◌, ◌≡◌, ap, ◌∙◌, arith, false, ◌==◌, ◌||◌, if◌then◌else◌, Bool-cases, inl,
  inr, List, [], ◌∷◌, length,
}
use limix.Base.Run.{ok}
use limix.Libk.Memory.{Mem}
use limix.Libk.Strings.{strlen_loop, kstrlen, strnext_loop, kstrnext}

-- The bytes `cs` stand at `s`, none of them 0, and a 0 stands behind them.
abbrev pub Text : Mem → ℕ → List ℕ → Type 0
Text m s [] = m s ≡ 0
Text m s (c ∷ cs) = (m s ≡ c) × (0 < c) × Text m (s + 1) cs

strlen_loop-Text :
    (cs : List ℕ) (fuel : ℕ) (m : Mem) (s i : ℕ)
    → Text m s cs
    → length cs < fuel
    → strlen_loop fuel m s i ≡ ok (i + length cs)
unfolding strlen_loop
strlen_loop-Text cs zero m s i t enough = absurd (omega arith)
strlen_loop-Text [] (suc fuel) m s i t enough = ground (arith, t)
strlen_loop-Text (c ∷ cs) (suc fuel) m s i (here, positive, t) enough =
    let some_byte : (m s == 0) ≡ false = ground arith in
    rw (some_byte, strlen_loop)
      (strlen_loop-Text cs fuel m (s + 1) (i + 1) t (omega arith) ∙ ap ok (omega arith))

-- With fuel for its bytes and the 0, kstrlen of a string at a non-null pointer returns the number
-- of its bytes.
pub kstrlen-length :
    (cs : List ℕ) (fuel : ℕ) (m : Mem) (s : ℕ)
    → Text m s cs
    → 0 < s
    → length cs < fuel
    → kstrlen fuel m s ≡ ok (length cs)
unfolding kstrlen
kstrlen-length cs fuel m s t pos enough =
    let some_pointer : (s == 0) ≡ false = ground arith in
    rw (some_pointer, kstrlen) (strlen_loop-Text cs fuel m s 0 t enough ∙ ap ok (omega arith))

-- The number of bytes before the first `c`, or of all if there is none.
abbrev pub position : ℕ → List ℕ → ℕ
position c [] = 0
position c (d ∷ ds) = if d == c then 0 else suc (position c ds)

strnext_loop-position :
    (cs : List ℕ) (fuel : ℕ) (m : Mem) (s c i : ℕ)
    → Text m s cs
    → length cs < fuel
    → strnext_loop fuel m s c i ≡ ok (i + position c cs)
unfolding strnext_loop
strnext_loop-position cs zero m s c i t enough = absurd (omega arith)
strnext_loop-position [] (suc fuel) m s c i t enough = ground (arith, t)
strnext_loop-position (d ∷ ds) (suc fuel) m s c i (here, positive, t) enough =
    elim (Bool-cases (d == c)) [
      | inl found ↦ ground (arith, here, found)
      | inr other ↦
          let go : (m s == 0 || m s == c) ≡ false = ground (arith, here, other) in
          rw (go, other, strnext_loop)
            (strnext_loop-position ds fuel m (s + 1) c (i + 1) t (omega arith)
              ∙ ap ok (omega arith))
    ]

-- With fuel for its bytes and the 0, kstrnext of a string returns the number of bytes before the
-- first `c`, or the length of the string if `c` is not in it.
pub kstrnext-position :
    (cs : List ℕ) (fuel : ℕ) (m : Mem) (s c : ℕ)
    → Text m s cs
    → length cs < fuel
    → kstrnext fuel m s c ≡ ok (position c cs)
unfolding kstrnext
kstrnext-position cs fuel m s c t enough =
    strnext_loop-position cs fuel m s c 0 t enough ∙ ap ok (omega arith)
