-- ===== src/Libk/Crypt/Crc32.antt =====
-- The checksum as a shift register that takes the message bit by bit.
use limix.Base.{
  ℕ, zero, suc, ◌+◌, ◌-◌, ◌*◌, ◌/◌, ◌%◌, ◌^◌, ◌<◌, ◌≡◌, refl, sym, ap, ◌∙◌, arith, Bool-cases, inl,
  inr, ◌==◌, if◌then◌else◌, bit_xor, true, false,
}
use native.Mathlib.Nat.{pow-suc}
use limix.Base.Xor.{half_xor, parity_xor, xor_comm, xor_assoc, xor_zero, xor_fields}
use limix.Libk.Memory.{Mem, IsBytes}
use limix.Libk.Crypt.{polynomial, poly_round, poly_rounds, crc32_poly, crc32_loop, crc32}

-- The register takes a bit: it is shifted, and the polynomial is added where the bit that leaves it
-- differs from the one that comes.
unfoldable pub feed : ℕ → ℕ → ℕ
feed r bit = if (r + bit) % 2 == 1 then bit_xor (r / 2) polynomial else r / 2

-- The lowest `k` bits of a number, the lowest first.
unfoldable pub feed_bits : ℕ → ℕ → ℕ → ℕ
feed_bits zero r b = r
feed_bits (suc k) r b = feed_bits k (feed r (b % 2)) (b / 2)

unfoldable pub feed_bytes : ℕ → Mem → ℕ → ℕ → ℕ
feed_bytes zero m p r = r
feed_bytes (suc count) m p r = feed_bytes count m (p + 1) (feed_bits 8 r (m p))

swap : (x y z : ℕ) → bit_xor (bit_xor x y) z ≡ bit_xor (bit_xor x z) y
swap x y z = xor_assoc x y z ∙ ap (bit_xor x) (xor_comm y z) ∙ sym (xor_assoc x z y)

-- A round on a sum of the register and what is still to come.
poly_round-feed : (r b : ℕ) → poly_round (bit_xor r b) ≡ bit_xor (feed r (b % 2)) (b / 2)
unfolding poly_round feed
poly_round-feed r b = elim (Bool-cases ((r + b) % 2 == 1)) [
  | inl e ↦
      let p : (bit_xor r b % 2 == 1) ≡ true = ground (arith, e, parity_xor r b) in
      let q : ((r + b % 2) % 2 == 1) ≡ true = ground (arith, e) in
      rw (poly_round, feed, p, q, half_xor r b) (swap (r / 2) (b / 2) polynomial)
  | inr e ↦
      let p : (bit_xor r b % 2 == 1) ≡ false = ground (arith, e, parity_xor r b) in
      let q : ((r + b % 2) % 2 == 1) ≡ false = ground (arith, e) in
      rw (poly_round, feed, p, q) (half_xor r b)
]

feed_zero : (r : ℕ) → feed r 0 ≡ poly_round r
unfolding feed poly_round
feed_zero r = let e : r + 0 ≡ r = omega arith in rw (feed, poly_round, e) refl

poly_rounds-feed_bits : (k r b : ℕ) → b < 2 ^ k → poly_rounds k (bit_xor r b) ≡ feed_bits k r b
unfolding poly_rounds feed_bits
poly_rounds-feed_bits zero r b l = let e : b ≡ 0 = omega arith in rw e (xor_zero r)
poly_rounds-feed_bits (suc k) r b l =
    ap (poly_rounds k) (poly_round-feed r b)
    ∙ poly_rounds-feed_bits k (feed r (b % 2)) (b / 2) (omega (arith, pow-suc 2 k))

-- What stands above the rounds moves down unchanged.
poly_rounds-above :
    (k a hi : ℕ) → poly_rounds k (bit_xor a (hi * 2 ^ k)) ≡ bit_xor (poly_rounds k a) hi
unfolding poly_rounds
poly_rounds-above zero a hi = ap (bit_xor a) (omega arith)
poly_rounds-above (suc k) a hi =
    let double : hi * 2 ^ suc k ≡ 2 * (hi * 2 ^ k) =
      omega (arith, ap (λ (t : ℕ). hi * t) (pow-suc 2 k)) in
    let even : 2 * (hi * 2 ^ k) % 2 ≡ 0 = omega arith in
    let half : 2 * (hi * 2 ^ k) / 2 ≡ hi * 2 ^ k = omega arith in
    rw double (
      ap (poly_rounds k) (
        poly_round-feed a (2 * (hi * 2 ^ k))
        ∙ ap (λ (t : ℕ). bit_xor (feed a t) (2 * (hi * 2 ^ k) / 2)) even
        ∙ ap (bit_xor (feed a 0)) half
        ∙ ap (λ (t : ℕ). bit_xor t (hi * 2 ^ k)) (feed_zero a))
      ∙ poly_rounds-above k (poly_round a) hi)

byte_step :
    (r b : ℕ) → b < 256 → bit_xor (crc32_poly (bit_xor (r % 256) b)) (r / 256) ≡ feed_bits 8 r b
unfolding crc32_poly
byte_step r b l =
    sym (poly_rounds-above 8 (bit_xor (r % 256) b) (r / 256))
    ∙ ap (poly_rounds 8) (
        swap (r % 256) b (r / 256 * 2 ^ 8)
        ∙ ap (λ (t : ℕ). bit_xor t b)
            (xor_fields 8 (r / 256) (r % 256) (omega arith) ∙ omega arith))
    ∙ poly_rounds-feed_bits 8 r b l

crc32_loop-feed_bytes :
    (count : ℕ) (m : Mem) (p r : ℕ) → IsBytes m → crc32_loop count m p r ≡ feed_bytes count m p r
unfolding crc32_loop feed_bytes
crc32_loop-feed_bytes zero m p r bytes = refl
crc32_loop-feed_bytes (suc count) m p r bytes =
    ap (crc32_loop count m (p + 1)) (byte_step r (m p) (bytes p))
    ∙ crc32_loop-feed_bytes count m (p + 1) (feed_bits 8 r (m p)) bytes

-- In a memory of bytes, crc32 is the complement of the shift register that starts with 32 ones and
-- takes the bits of the block one by one, the lowest of each byte first.
pub crc32-feed_bytes :
    (m : Mem) (p count : ℕ)
    → IsBytes m
    → crc32 m p count ≡ 0xffffffff - feed_bytes count m p 0xffffffff
unfolding crc32
crc32-feed_bytes m p count bytes =
    ap (λ (t : ℕ). 0xffffffff - t) (crc32_loop-feed_bytes count m p 0xffffffff bytes)
