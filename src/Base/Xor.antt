-- ===== src/Base/Xor.antt =====
-- `^` at variables, digit by digit.
use Prim.Native.Nat.{
  ℕ, zero, suc, ◌+◌, ◌*◌, ◌/◌, ◌%◌, ◌^◌, ◌≤◌, ◌<◌, differ, bit_xor, bit_xor-bitwise,
}
use mathlib.Core.Path.{◌∙◌, ◌≡◌, refl, ap}
use native.Mathlib.Omega.{arith}
use native.Mathlib.Nat.{pow-suc}
use limix.Base.Bits.{digits_step}

differ_digits : (x y : ℕ) → x < 2 → y < 2 → differ x y ≡ (x + y) % 2
differ_digits zero y lx ly = omega arith
differ_digits (suc zero) zero lx ly = refl
differ_digits (suc zero) (suc zero) lx ly = refl
differ_digits (suc zero) (suc (suc y)) lx ly = absurd (omega arith)
differ_digits (suc (suc x)) y lx ly = absurd (omega arith)

pub bit_xor_digit : (a b : ℕ) → bit_xor a b ≡ bit_xor (a / 2) (b / 2) * 2 + (a % 2 + b % 2) % 2
bit_xor_digit a b = omega (
  arith,
  bit_xor-bitwise a b,
  bit_xor-bitwise (a / 2) (b / 2),
  digits_step (λ b. b) differ (λ b. omega (arith, differ_digits 0 (b % 2))) a b,
  differ_digits (a % 2) (b % 2) (omega arith) (omega arith),
)

pub half_xor : (a b : ℕ) → bit_xor a b / 2 ≡ bit_xor (a / 2) (b / 2)
half_xor a b = omega (arith, bit_xor_digit a b)

pub parity_xor : (a b : ℕ) → bit_xor a b % 2 ≡ (a + b) % 2
parity_xor a b = omega (arith, bit_xor_digit a b)

xor_comm_below : (n a b : ℕ) → a ≤ n → b ≤ n → bit_xor a b ≡ bit_xor b a
xor_comm_below zero a b la lb =
    let ea : a ≡ 0 = omega arith in let eb : b ≡ 0 = omega arith in rw (ea, eb) refl
xor_comm_below (suc n) a b la lb = omega (
  arith,
  bit_xor_digit a b,
  bit_xor_digit b a,
  xor_comm_below n (a / 2) (b / 2) (omega arith) (omega arith),
)

pub xor_comm : (a b : ℕ) → bit_xor a b ≡ bit_xor b a
xor_comm a b = xor_comm_below (a + b) a b (omega arith) (omega arith)

xor_assoc_below :
    (n a b c : ℕ) → a ≤ n → b ≤ n → c ≤ n → bit_xor (bit_xor a b) c ≡ bit_xor a (bit_xor b c)
xor_assoc_below zero a b c la lb lc =
    let ea : a ≡ 0 = omega arith in
    let eb : b ≡ 0 = omega arith in let ec : c ≡ 0 = omega arith in rw (ea, eb, ec) refl
xor_assoc_below (suc n) a b c la lb lc = omega (
  arith,
  bit_xor_digit (bit_xor a b) c,
  bit_xor_digit a (bit_xor b c),
  ap (λ (t : ℕ). bit_xor t (c / 2)) (half_xor a b),
  ap (λ (t : ℕ). bit_xor (a / 2) t) (half_xor b c),
  parity_xor a b,
  parity_xor b c,
  xor_assoc_below n (a / 2) (b / 2) (c / 2) (omega arith) (omega arith) (omega arith),
)

pub xor_assoc : (a b c : ℕ) → bit_xor (bit_xor a b) c ≡ bit_xor a (bit_xor b c)
xor_assoc a b c = xor_assoc_below (a + b + c) a b c (omega arith) (omega arith) (omega arith)

pub zero_xor : (a : ℕ) → bit_xor 0 a ≡ a
zero_xor a = bit_xor-bitwise 0 a

pub xor_zero : (a : ℕ) → bit_xor a 0 ≡ a
xor_zero a = xor_comm a 0 ∙ zero_xor a

xor_self_below : (n a : ℕ) → a ≤ n → bit_xor a a ≡ 0
xor_self_below zero a l = let e : a ≡ 0 = omega arith in rw e refl
xor_self_below (suc n) a l =
    omega (arith, bit_xor_digit a a, xor_self_below n (a / 2) (omega arith))

pub xor_self : (a : ℕ) → bit_xor a a ≡ 0
xor_self a = xor_self_below a a (omega arith)

-- Numbers without a common digit are added.
pub xor_fields : (k hi lo : ℕ) → lo < 2 ^ k → bit_xor lo (hi * 2 ^ k) ≡ hi * 2 ^ k + lo
xor_fields zero hi lo l = let e : lo ≡ 0 = omega arith in rw e (omega (arith, zero_xor (hi * 1)))
xor_fields (suc k) hi lo l = rw shifted (
    omega (
      arith,
      bit_xor_digit lo (2 * (hi * 2 ^ k)),
      ap (λ (t : ℕ). bit_xor (lo / 2) t) halved,
      xor_fields k hi (lo / 2) (omega (arith, pow-suc 2 k)),
    ))
  where
    shifted : hi * 2 ^ suc k ≡ 2 * (hi * 2 ^ k)
    shifted = omega (arith, ap (λ (t : ℕ). hi * t) (pow-suc 2 k))

    halved : 2 * (hi * 2 ^ k) / 2 ≡ hi * 2 ^ k
    halved = omega arith
