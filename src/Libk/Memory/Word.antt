-- ===== src/Libk/Memory/Word.antt =====
-- Multi-byte reads and writes, byte by byte.
use limix.Base.{
  ℕ, zero, suc, ◌+◌, ◌-◌, ◌*◌, ◌/◌, ◌%◌, ◌≤◌, ◌<◌, ◌≡◌, ◌∙◌, ap, fun_ext, arith, ltb, leb, ◌&&◌,
  if◌then◌else◌,
}
use limix.Libk.Memory.{Mem, IsBytes, store8, load, store}

-- `m` with the `k` bytes from `s` on, as `m` has them, put at `d`.
abbrev pub copied : Mem → ℕ → ℕ → ℕ → Mem
copied m d s k x = if leb d x && ltb x (d + k) then m (s + (x - d)) else m x

-- `m` with `k` bytes `b` from `d` on.
abbrev pub filled : Mem → ℕ → ℕ → ℕ → Mem
filled m d b k x = if leb d x && ltb x (d + k) then b else m x

-- One more byte behind those already copied.
pub store8-copied :
    (m : Mem) (d s k a v : ℕ)
    → a ≡ d + k
    → v % 256 ≡ m (s + k)
    → store8 (copied m d s k) a v ≡ copied m d s (k + 1)
unfolding store8
store8-copied m d s k a v ea e = fun_ext λ x. at x
  where
    at : (x : ℕ) → store8 (copied m d s k) a v x ≡ copied m d s (k + 1) x
    at x = ground (arith, e)

-- Bytes that were read before the write, put behind those already copied.
pub store-load :
    (w : ℕ) (m old : Mem) (d s k a b j : ℕ)
    → IsBytes m
    → a ≡ d + k
    → b ≡ s + k
    → j ≡ k + w
    → ((x : ℕ) → s + k ≤ x → x < s + j → old x ≡ m x)
    → store w (copied m d s k) a (load w old b) ≡ copied m d s j
unfolding store load
store-load zero m old d s k a b j bytes ea eb ej same = ap (copied m d s) (omega arith)
store-load (suc w) m old d s k a b j bytes ea eb ej same =
    rw (store8-copied m d s k a v ea low, high)
      (store-load w m old d s (k + 1) (a + 1) (b + 1) j bytes (omega arith) (omega arith)
        (omega arith) (λ x l u. same x (omega arith) u))
  where
    v : ℕ
    v = old b + 256 * load w old (b + 1)

    read : old b ≡ m (s + k)
    read = same b (omega arith) (omega arith) ∙ ap m eb

    low : v % 256 ≡ m (s + k)
    low = omega (arith, read, bytes (s + k))

    high : v / 256 ≡ load w old (b + 1)
    high = omega (arith, read, bytes (s + k))

pub store8-filled :
    (m : Mem) (d b k a v : ℕ)
    → a ≡ d + k
    → v % 256 ≡ b
    → store8 (filled m d b k) a v ≡ filled m d b (k + 1)
unfolding store8
store8-filled m d b k a v ea e = fun_ext λ x. at x
  where
    at : (x : ℕ) → store8 (filled m d b k) a v x ≡ filled m d b (k + 1) x
    at x = ground arith

-- The low `w` bytes of `v` are all `b`.
abbrev pub Repeats : ℕ → ℕ → ℕ → Type 0
Repeats zero b v = Unit {0}
Repeats (suc w) b v = (v % 256 ≡ b) × Repeats w b (v / 256)

-- A word of equal bytes, put behind those already written.
pub store-filled :
    (w : ℕ) (m : Mem) (d b k a v j : ℕ)
    → Repeats w b v
    → a ≡ d + k
    → j ≡ k + w
    → store w (filled m d b k) a v ≡ filled m d b j
unfolding store
store-filled zero m d b k a v j reps ea ej = ap (filled m d b) (omega arith)
store-filled (suc w) m d b k a v j reps ea ej =
    rw (store8-filled m d b k a v ea reps.0)
      (store-filled w m d b (k + 1) (a + 1) (v / 256) j reps.1 (omega arith) (omega arith))
