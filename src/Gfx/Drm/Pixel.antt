-- ===== src/Gfx/Drm/Pixel.antt =====
-- Words in memory: what a write leaves of a read.
use limix.Base.{ℕ, zero, suc, ◌+◌, ◌/◌, ◌%◌, ◌^◌, ◌≤◌, ◌<◌, ◌≡◌, refl, ◌∙◌, arith, ◌⊎◌, inl}
use native.Mathlib.Nat.{pow-suc}
use limix.Libk.Memory.{Mem, store8, load, store}

-- The `w` bytes from `a` on lie apart from address `x`.
abbrev pub Apart : ℕ → ℕ → ℕ → Type 0
Apart w a x = (x < a) ⊎ (a + w ≤ x)

pub store-outside : (w : ℕ) (m : Mem) (a v x : ℕ) → Apart w a x → store w m a v x ≡ m x
unfolding store store8
store-outside zero m a v x h = refl
store-outside (suc w) m a v x h =
    store-outside w (store8 m a v) (a + 1) (v / 256) x (ground (arith, h)) ∙ ground (arith, h)

-- A read of `k` bytes at `b` apart from the bytes that are written.
pub load-store_apart :
    (k w : ℕ) (m : Mem) (a v b : ℕ)
    → (b + k ≤ a) ⊎ (a + w ≤ b)
    → load k (store w m a v) b ≡ load k m b
unfolding load
load-store_apart zero w m a v b h = refl
load-store_apart (suc k) w m a v b h = omega (
  arith,
  store-outside w m a v b (ground (arith, h)),
  load-store_apart k w m a v (b + 1) (ground (arith, h)),
)

store8_self : (m : Mem) (a v : ℕ) → store8 m a v a ≡ v % 256
unfolding store8
store8_self m a v = ground arith

pub load-store_self : (w : ℕ) (m : Mem) (a v : ℕ) → v < 256 ^ w → load w (store w m a v) a ≡ v
unfolding load store
load-store_self zero m a v h = omega arith
load-store_self (suc w) m a v h = omega (
  arith,
  store-outside w (store8 m a v) (a + 1) (v / 256) a (inl (omega arith)),
  store8_self m a v,
  load-store_self w (store8 m a v) (a + 1) (v / 256) (omega (arith, pow-suc 256 w)),
)
