-- ===== src/Libk/Strings/Ntos.antt =====
-- libk/src/utils/string/ntos.c: the digits of a number. `i` is the 64-bit pattern of the isz, and a
-- digit that does not fit a signed char is negative.
use limix.Base.{
  ℕ, zero, suc, ◌+◌, ◌-◌, ◌/◌, ◌%◌, ◌^◌, ◌==◌, ltb, leb, if◌then◌else◌, Bool, true, false, ◌||◌,
}
use limix.Libk.Memory.{Mem, store8, kmemset}
use limix.Libk.Strings.{Reversed, no_buffer, reversed, reverse}

-- `STR_OK`, `STR_NOBUF`, `STR_OVERFLOW` and `STR_LOWBASE`
pub data Status : Type 0 where
  str_ok str_nobuf str_overflow str_lowbase : Status

unfoldable pub digit_char : ℕ → ℕ
digit_char d =
    if leb 128 d
    then (b'0' + d) % 256
    else if ltb d 10
    then b'0' + d
    else if ltb d 35
    then b'a' + d - 10
    else if ltb d 60
    then b'A' + d - 35
    else b'?'

-- `while (n > 0 && p < length)`, with `left` bytes up to `length`.
unfoldable pub digit_loop : ℕ → Mem → ℕ → ℕ → ℕ → ℕ → Mem × ℕ
digit_loop zero m buf base n p = (m, p)
digit_loop (suc left) m buf base n p = elim (n == 0) [
  | true ↦ (m, p)
  | false ↦ digit_loop left (store8 m (buf + p) (digit_char (n % base))) buf base (n / base) (p + 1)
]

abbrev pub memory_of : Mem → Reversed → Mem
memory_of m r = elim r [ no_buffer ↦ m | reversed m' ↦ m' ]

-- The buffer before the digits.
unfoldable pub clear_buffer : Mem → ℕ → ℕ → Bool → Mem
clear_buffer m buf length pad =
    let m1 = kmemset m buf 0 length in
    store8 (if pad then kmemset m1 buf b'0' length else m1) (buf + length) 0

unfoldable pub ntos : Mem → ℕ → ℕ → ℕ → ℕ → Bool → Bool → Mem × Status
unfolding digit_loop clear_buffer
ntos m buf i base length unsign pad =
    let negative = leb (2 ^ 63) i in
    let start = clear_buffer m buf length pad in
    let n = if unsign then i else if negative then 0 else i in
    let digits = digit_loop length start buf base n 0 in
    let signed =
      if unsign
      then digits
      else (store8 digits.0 (buf + digits.1) (if negative then b'-' else b'+'), digits.1 + 1) in
    if length == 0 || buf == 0
    then (m, str_nobuf)
    else if ltb base 2
    then (m, str_lowbase)
    else if i == 0
    then (store8 start buf b'0', str_ok)
    else (
      memory_of signed.0 (reverse signed.0 buf (if pad then length else signed.1)),
      if ltb signed.1 length then str_ok else str_overflow,
    )
