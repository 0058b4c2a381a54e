-- ===== src/Libk/Memory/Move.antt =====
-- kmemmove on blocks that may overlap either way.
use limix.Base.{
  ℕ, zero, suc, ◌+◌, ◌-◌, ◌≤◌, ◌≡◌, ap, sym, ◌∙◌, fun_ext, arith, ltb, leb, ◌&&◌, Bool-cases, inl,
  inr, if◌then◌else◌,
}
use limix.Libk.Memory.{Mem, IsBytes, store8, move_down, kmemmove}
use limix.Libk.Memory.Word.{copied}
use limix.Libk.Memory.Copy.{kmemcpy-copied}

-- `old` with bytes `i` to `n - 1` of the block copied.
abbrev from_top : Mem → ℕ → ℕ → ℕ → ℕ → Mem
from_top m d s i n x = if leb (d + i) x && ltb x (d + n) then m (s + (x - d)) else m x

store8-from_top :
    (m : Mem) (d s i n : ℕ)
    → IsBytes m
    → suc i ≤ n
    → store8 (from_top m d s (suc i) n) (d + i) (m (s + i)) ≡ from_top m d s i n
unfolding store8
store8-from_top m d s i n bytes h = fun_ext λ x. at x
  where
    at : (x : ℕ) → store8 (from_top m d s (suc i) n) (d + i) (m (s + i)) x ≡ from_top m d s i n x
    at x = ground (arith, bytes (s + i))

move_down-copied :
    (i : ℕ) (m : Mem) (d s n : ℕ)
    → IsBytes m
    → s ≤ d
    → i ≤ n
    → move_down i (from_top m d s i n) d s ≡ copied m d s n
unfolding move_down
move_down-copied zero m d s n bytes below h = fun_ext λ x. at x
  where
    at : (x : ℕ) → from_top m d s 0 n x ≡ copied m d s n x
    at x = ground arith
move_down-copied (suc i) m d s n bytes below h =
    rw (read, store8-from_top m d s i n bytes h)
      (move_down-copied i m d s n bytes below (omega arith))
  where
    read : from_top m d s (suc i) n (s + i) ≡ m (s + i)
    read = ground arith

from_top_none : (m : Mem) (d s n : ℕ) → from_top m d s n n ≡ m
from_top_none m d s n = fun_ext λ x. at x
  where
    at : (x : ℕ) → from_top m d s n n x ≡ m x
    at x = ground arith

copied_self : (m : Mem) (d n : ℕ) → copied m d d n ≡ m
copied_self m d n = fun_ext λ x. at x
  where
    at : (x : ℕ) → copied m d d n x ≡ m x
    at x = ground arith

-- In a memory of bytes, wherever the two blocks lie, kmemmove leaves the target as a copy of the
-- `n` bytes of the source as they were before, and writes nothing else.
pub kmemmove-copied : (m : Mem) (d s n : ℕ) → IsBytes m → kmemmove m d s n ≡ copied m d s n
unfolding kmemmove
kmemmove-copied m d s n bytes = elim (Bool-cases (ltb d s)) [
  | inl down ↦ rw down (kmemcpy-copied m d s n bytes (ground arith))
  | inr up ↦ elim (Bool-cases (ltb s d)) [
    | inl above ↦
        rw (up, above)
          (ap (λ old. move_down n old d s) (sym (from_top_none m d s n))
            ∙ move_down-copied n m d s n bytes (ground arith) (omega arith))
    | inr same ↦
        let e : s ≡ d = ground arith in
        rw (up, same) (sym (ap (λ k. copied m d k n) e ∙ copied_self m d n))
  ]
]
