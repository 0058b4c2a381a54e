-- ===== src/Libk/Strings.antt =====
-- libk/src/utils/string/{strlen,strnext,strncmp,strnlcmp,reverse}.c over the byte memory of
-- Libk/Memory. A loop that looks for the end of a string runs on fuel, since memory need not hold
-- one; a string of `n` bytes takes `n + 1` rounds.
pub mod Text
pub mod Equal
pub mod Reverse
pub mod Ntos
pub mod Digits
mod Tests
use limix.Base.{
  ℕ, zero, suc, ◌+◌, ◌-◌, ◌*◌, ◌/◌, ◌%◌, ◌^◌, true, false, ◌==◌, ltb, leb, if◌then◌else◌, Bool, not,
  ◌||◌,
}
use limix.Base.Run.{Run, ok, out_of_fuel, ◌>>=◌}
use limix.Libk.Memory.{Mem, store8}

abbrev pub min : ℕ → ℕ → ℕ
min a b = if ltb a b then a else b

-- `while (*s) { i++; s++; }`
unfoldable pub strlen_loop : ℕ → Mem → ℕ → ℕ → Run ℕ
strlen_loop zero m s i = out_of_fuel
strlen_loop (suc fuel) m s i = elim (m s == 0) [
  | true ↦ ok i
  | false ↦ strlen_loop fuel m (s + 1) (i + 1)
]

unfoldable pub kstrlen : ℕ → Mem → ℕ → Run ℕ
kstrlen fuel m s = if s == 0 then ok 0 else strlen_loop fuel m s 0

-- `while (*s && *s != c) { i++; s++; }`
unfoldable pub strnext_loop : ℕ → Mem → ℕ → ℕ → ℕ → Run ℕ
strnext_loop zero m s c i = out_of_fuel
strnext_loop (suc fuel) m s c i = elim (m s == 0 || m s == c) [
  | true ↦ ok i
  | false ↦ strnext_loop fuel m (s + 1) c (i + 1)
]

unfoldable pub kstrnext : ℕ → Mem → ℕ → ℕ → Run ℕ
unfolding strnext_loop
kstrnext fuel m s c = strnext_loop fuel m s c 0

-- The rounds of `for (i32 i = 0; i < l; i++)` for an i32 that is set from a usz.
unfoldable pub i32_rounds : ℕ → ℕ
i32_rounds l = let w = l % 2 ^ 32 in if ltb w (2 ^ 31) then w else 0

-- The loop `if (a[i] != b[i]) return false;`
unfoldable pub same_loop : ℕ → Mem → ℕ → ℕ → Bool
same_loop zero m a b = true
same_loop (suc n) m a b = elim (m a == m b) [ true ↦ same_loop n m (a + 1) (b + 1) | false ↦ false ]

unfoldable pub kstrncmp : ℕ → Mem → ℕ → ℕ → ℕ → Run Bool
unfolding kstrlen i32_rounds
kstrncmp fuel m a b n = do
  la ← kstrlen fuel m a
  lb ← kstrlen fuel m b
  ok (
      if not (min la n == min lb n)
      then false
      else same_loop (i32_rounds (min (min la lb) n)) m a b)

unfoldable pub kstrnlcmp : ℕ → Mem → ℕ → ℕ → ℕ → ℕ → Run Bool
unfolding kstrlen i32_rounds
kstrnlcmp fuel m a b n l = do
  la ← kstrlen fuel m a
  lb ← kstrlen fuel m b
  ok (
      if not (min la l == min lb l)
      then false
      else same_loop (i32_rounds (min (min la lb) n)) m a b)

-- `for (i = 0, j = len - 1; i < j; i++, j--)` swaps the bytes at `i` and `j`; the fuel is `len`.
unfoldable pub swap_loop : ℕ → Mem → ℕ → ℕ → ℕ → Mem
swap_loop zero m s i j = m
swap_loop (suc fuel) m s i j = elim (ltb i j) [
  | true ↦
      swap_loop fuel (store8 (store8 m (s + i) (m (s + j))) (s + j) (m (s + i))) s (i + 1) (j - 1)
  | false ↦ m
]

-- What `reverse` returns: STR_NOBUF or STR_OK.
pub data Reversed : Type 0 where
  no_buffer : Reversed
  reversed : Mem → Reversed

unfoldable pub reverse : Mem → ℕ → ℕ → Reversed
unfolding swap_loop
reverse m s len = if len == 0 || s == 0 then no_buffer else reversed (swap_loop len m s 0 (len - 1))
