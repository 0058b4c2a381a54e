-- ===== src/Libk/Crypt/Tests.antt =====
-- The checksum of "123456789", and the first random number.
use limix.Base.{◌+◌, ◌-◌, ◌%◌, ◌≡◌, refl, arith}
use limix.Libk.Memory.{Mem, IsBytes}
use limix.Libk.Crypt.{poly_round, crc32, crc32_poly, krand}
use limix.Libk.Crypt.Crc32.{feed_bytes, crc32-feed_bytes}

abbrev digit_bytes : Mem
digit_bytes a = (49 + a) % 256

digit_bytes-IsBytes : IsBytes digit_bytes
digit_bytes-IsBytes a = omega arith

check_value : crc32 digit_bytes 0 9 ≡ 0xcbf43926
unfolding crc32 crc32_poly poly_round
check_value = refl

first_random : krand 1 ≡ (16838, 1103527590)
unfolding krand
first_random = refl

crc32-feed_bytes_example :
    crc32 digit_bytes 0 9 ≡ 0xffffffff - feed_bytes 9 digit_bytes 0 0xffffffff
crc32-feed_bytes_example = crc32-feed_bytes digit_bytes 0 9 digit_bytes-IsBytes
