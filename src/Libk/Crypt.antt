-- ===== src/Libk/Crypt.antt =====
-- libk/src/crypt/{crc32,rand}.c: the checksum and the random numbers, in 32 bits.
pub mod Crc32
mod Tests
use limix.Base.{ℕ, zero, suc, ◌+◌, ◌-◌, ◌*◌, ◌/◌, ◌%◌, ◌^◌, ◌==◌, if◌then◌else◌, bit_xor}
use limix.Libk.Memory.{Mem}

abbrev pub polynomial : ℕ
polynomial = 0xedb88320

-- One of the eight rounds of _crc32_poly.
unfoldable pub poly_round : ℕ → ℕ
poly_round r = if r % 2 == 1 then bit_xor (r / 2) polynomial else r / 2

unfoldable pub poly_rounds : ℕ → ℕ → ℕ
poly_rounds zero r = r
poly_rounds (suc left) r = poly_rounds left (poly_round r)

unfoldable pub crc32_poly : ℕ → ℕ
unfolding poly_rounds
crc32_poly i = poly_rounds 8 i

-- `while (count-- != 0)`
unfoldable pub crc32_loop : ℕ → Mem → ℕ → ℕ → ℕ
crc32_loop zero m p r = r
crc32_loop (suc count) m p r =
    crc32_loop count m (p + 1) (bit_xor (crc32_poly (bit_xor (r % 256) (m p))) (r / 256))

unfoldable pub crc32 : Mem → ℕ → ℕ → ℕ
unfolding crc32_loop
crc32 m p count = 0xffffffff - crc32_loop count m p 0xffffffff

-- `next` after a call of krand, and what it returns.
unfoldable pub krand : ℕ → ℕ × ℕ
krand next = let n = (next * 1103515245 + 12345) % 2 ^ 32 in (n / 65536 % 32768, n)

unfoldable pub ksrand : ℕ → ℕ → ℕ
ksrand seed next = seed
