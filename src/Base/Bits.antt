-- ===== src/Base/Bits.antt =====
-- `&` and `|` at variables: digit by digit, against a low mask and against a single bit.
use Prim.Native.Nat.{
  ℕ, zero, suc, ◌+◌, ◌*◌, ◌/◌, ◌%◌, ◌^◌, ◌≤◌, ◌<◌, min, max, digits, bit_and, bit_or,
  bit_and-bitwise, bit_or-bitwise,
}
use mathlib.Core.Path.{◌∙◌, ◌≡◌, refl, ap}
use native.Mathlib.Omega.{arith}
use native.Mathlib.Nat.{pow-suc, one-le-pow}

-- An operation on digits, with what it makes of the second number once the first has run out.
module _ (rest : ℕ → ℕ) (op : ℕ → ℕ → ℕ)
    (rest_step : (b : ℕ) → rest b ≡ rest (b / 2) * 2 + op 0 (b % 2)) where
  -- More fuel than digits changes nothing.
  digits_enough : (n m a b : ℕ) → a ≤ n → a ≤ m → digits rest op n a b ≡ digits rest op m a b
  digits_enough zero zero a b p q = refl
  digits_enough zero (suc m) zero b p q = refl
  digits_enough (suc n) zero zero b p q = refl
  digits_enough (suc n) (suc m) zero b p q = refl
  digits_enough zero m (suc a) b p q = absurd (omega arith)
  digits_enough (suc n) zero (suc a) b p q = absurd (omega arith)
  digits_enough (suc n) (suc m) (suc a) b p q =
      ap (λ (t : ℕ). t * 2 + op (suc a % 2) (b % 2))
        (digits_enough n m (suc a / 2) (b / 2) (omega arith) (omega arith))

  pub digits_step :
      (a b : ℕ)
      → digits rest op a a b ≡ digits rest op (a / 2) (a / 2) (b / 2) * 2 + op (a % 2) (b % 2)
  digits_step zero b = rest_step b
  digits_step (suc a) b =
      ap (λ (t : ℕ). t * 2 + op (suc a % 2) (b % 2))
        (digits_enough a (suc a / 2) (suc a / 2) (b / 2) (omega arith) (omega arith))

pub bit_and_digit : (a b : ℕ) → bit_and a b ≡ bit_and (a / 2) (b / 2) * 2 + min (a % 2) (b % 2)
bit_and_digit a b = omega (
  arith,
  bit_and-bitwise a b,
  bit_and-bitwise (a / 2) (b / 2),
  digits_step (λ b. zero) min (λ b. omega arith) a b,
)

pub bit_or_digit : (a b : ℕ) → bit_or a b ≡ bit_or (a / 2) (b / 2) * 2 + max (a % 2) (b % 2)
bit_or_digit a b = omega (
  arith,
  bit_or-bitwise a b,
  bit_or-bitwise (a / 2) (b / 2),
  digits_step (λ b. b) max (λ b. omega arith) a b,
)

bit_and-zero_below : (n a : ℕ) → a ≤ n → bit_and a 0 ≡ 0
bit_and-zero_below zero a h = let e : a ≡ 0 = omega arith in rw e refl
bit_and-zero_below (suc n) zero h = refl
bit_and-zero_below (suc n) (suc a) h =
    omega (arith, bit_and_digit (suc a) 0, bit_and-zero_below n (suc a / 2) (omega arith))

pub bit_and-zero : (a : ℕ) → bit_and a 0 ≡ 0
bit_and-zero a = bit_and-zero_below a a (omega arith)

bit_or-zero_below : (n a : ℕ) → a ≤ n → bit_or a 0 ≡ a
bit_or-zero_below zero a h = let e : a ≡ 0 = omega arith in rw e refl
bit_or-zero_below (suc n) zero h = refl
bit_or-zero_below (suc n) (suc a) h =
    omega (arith, bit_or_digit (suc a) 0, bit_or-zero_below n (suc a / 2) (omega arith))

pub bit_or-zero : (a : ℕ) → bit_or a 0 ≡ a
bit_or-zero a = bit_or-zero_below a a (omega arith)

pub zero-bit_or : (a : ℕ) → bit_or 0 a ≡ a
zero-bit_or a = bit_or-bitwise 0 a

pub zero-bit_and : (a : ℕ) → bit_and 0 a ≡ 0
zero-bit_and a = bit_and-bitwise 0 a

-- `k` ones; at a numeral this is the numeral.
abbrev pub low_mask : ℕ → ℕ
low_mask zero = 0
low_mask (suc k) = 2 * low_mask k + 1

pow_double : (k : ℕ) → 2 ^ suc k ≡ 2 * 2 ^ k
pow_double k = omega (arith, pow-suc 2 k)

pow_pos : (k : ℕ) → 0 < 2 ^ k
pow_pos k = one-le-pow k 2 (omega arith)

mod_double : (a p : ℕ) → 0 < p → a % (2 * p) ≡ (a / 2 % p) * 2 + a % 2
mod_double a p h = grind arith

div_double : (a p : ℕ) → 0 < p → a / (2 * p) ≡ a / 2 / p
div_double a p h = grind arith

-- `a & (2^k - 1)` is the remainder by `2^k`.
pub bit_and-low_mask : (k a : ℕ) → bit_and a (low_mask k) ≡ a % 2 ^ k
bit_and-low_mask zero a = omega (arith, bit_and-zero a)
bit_and-low_mask (suc k) a =
    rw (pow_double k, mod_double a (2 ^ k) (pow_pos k))
      (omega (arith, bit_and_digit a (low_mask (suc k)), halved, bit_and-low_mask k (a / 2)))
  where
    halved : bit_and (a / 2) (low_mask (suc k) / 2) ≡ bit_and (a / 2) (low_mask k)
    halved = ap (bit_and (a / 2)) (omega arith)

-- `(hi << k) | lo` is a sum where `lo` fits `k` bits.
pub bit_or-fields : (k hi lo : ℕ) → lo < 2 ^ k → bit_or (hi * 2 ^ k) lo ≡ hi * 2 ^ k + lo
bit_or-fields zero hi lo h =
    let e : lo ≡ 0 = omega arith in rw e (omega (arith, bit_or-zero (hi * 1)))
bit_or-fields (suc k) hi lo h = rw (shifted) (
    omega (
      arith,
      bit_or_digit (2 * (hi * 2 ^ k)) lo,
      halved,
      bit_or-fields k hi (lo / 2) (omega (arith, pow_double k)),
    ))
  where
    shifted : hi * 2 ^ suc k ≡ 2 * (hi * 2 ^ k)
    shifted = omega (arith, ap (λ (t : ℕ). hi * t) (pow_double k))

    halved : bit_or (2 * (hi * 2 ^ k) / 2) (lo / 2) ≡ bit_or (hi * 2 ^ k) (lo / 2)
    halved = ap (λ (t : ℕ). bit_or t (lo / 2)) (omega arith)

-- `a & (1 << k)` is bit `k`.
pub bit_and-bit : (k a : ℕ) → bit_and a (2 ^ k) ≡ a / 2 ^ k % 2 * 2 ^ k
bit_and-bit zero a = omega (arith, bit_and_digit a 1, bit_and-zero (a / 2))
bit_and-bit (suc k) a =
    rw (pow_double k, div_double a (2 ^ k) (pow_pos k))
      (omega (
        arith,
        bit_and_digit a (2 * 2 ^ k),
        halved,
        bit_and-bit k (a / 2),
        ap (λ (t : ℕ). 2 * t) (bit_and-bit k (a / 2)),
      ))
  where
    halved : bit_and (a / 2) (2 * 2 ^ k / 2) ≡ bit_and (a / 2) (2 ^ k)
    halved = ap (bit_and (a / 2)) (omega arith)

-- Ones absorb a number that fits them.
pub bit_or-low_mask : (k a : ℕ) → a < 2 ^ k → bit_or a (low_mask k) ≡ low_mask k
bit_or-low_mask zero a h = let e : a ≡ 0 = omega arith in rw e (omega (arith, bit_or-zero 0))
bit_or-low_mask (suc k) a h = omega (
  arith,
  bit_or_digit a (low_mask (suc k)),
  ap (λ (t : ℕ). bit_or (a / 2) t) halved,
  bit_or-low_mask k (a / 2) (omega (arith, pow_double k)),
)
  where
    halved : low_mask (suc k) / 2 ≡ low_mask k
    halved = omega arith

-- `a | (b << k)` leaves the low `k` bits.
pub bit_or-high :
    (k hi lo b : ℕ) → lo < 2 ^ k → bit_or (hi * 2 ^ k + lo) (b * 2 ^ k) ≡ bit_or hi b * 2 ^ k + lo
bit_or-high zero hi lo b h =
    ap (λ (t : ℕ). bit_or t (b * 1)) low ∙ ap (λ (t : ℕ). bit_or hi t) one ∙ omega arith
  where
    low : hi * 1 + lo ≡ hi
    low = omega arith

    one : b * 1 ≡ b
    one = omega arith
bit_or-high (suc k) hi lo b h =
    rw (doubled hi, doubled b, doubled (bit_or hi b))
      (omega (
        arith,
        bit_or_digit (2 * (hi * 2 ^ k) + lo) (2 * (b * 2 ^ k)),
        halved,
        bit_or-high k hi (lo / 2) b (omega (arith, pow_double k)),
      ))
  where
    doubled : (a : ℕ) → a * 2 ^ suc k ≡ 2 * (a * 2 ^ k)
    doubled a = omega (arith, ap (λ (t : ℕ). a * t) (pow_double k))

    halved :
        bit_or ((2 * (hi * 2 ^ k) + lo) / 2) (2 * (b * 2 ^ k) / 2)
        ≡ bit_or (hi * 2 ^ k + lo / 2) (b * 2 ^ k)
    halved =
        ap (λ (t : ℕ). bit_or t (2 * (b * 2 ^ k) / 2)) (omega arith)
        ∙ ap (λ (t : ℕ). bit_or (hi * 2 ^ k + lo / 2) t) (omega arith)

-- `a | b` leaves what stands above `b`.
pub bit_or-top : (k a b : ℕ) → b < 2 ^ k → bit_or a b / 2 ^ k ≡ a / 2 ^ k
bit_or-top zero a b h = let e : b ≡ 0 = omega arith in rw (e, bit_or-zero a) refl
bit_or-top (suc k) a b h =
    rw (pow_double k, div_double (bit_or a b) (2 ^ k) (pow_pos k), div_double a (2 ^ k) (pow_pos k))
      (ap (λ (t : ℕ). t / 2 ^ k) half ∙ bit_or-top k (a / 2) (b / 2) (omega (arith, pow_double k)))
  where
    half : bit_or a b / 2 ≡ bit_or (a / 2) (b / 2)
    half = omega (arith, bit_or_digit a b)

-- A set lowest bit stays set.
pub bit_or-odd : (a b : ℕ) → a % 2 ≡ 1 → bit_or a b % 2 ≡ 1
bit_or-odd a b h = omega (arith, bit_or_digit a b)
