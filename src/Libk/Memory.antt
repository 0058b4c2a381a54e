-- ===== src/Libk/Memory.antt =====
-- libk/src/utils/memory/{memset,memcpy,memmove,memcmp}.c over a flat byte memory.
-- A pointer is an address and memory a function from addresses to bytes. Addresses do not wrap:
-- the blocks that the kernel hands to these functions end below 2 ^ 64. Each C function returns
-- its first argument; the model returns the memory that it leaves behind.
pub mod Word
pub mod Copy
pub mod Move
pub mod Fill
pub mod Compare
mod Tests
use limix.Base.{
  ℕ, zero, suc, ◌+◌, ◌-◌, ◌*◌, ◌/◌, ◌%◌, ◌^◌, ◌<◌, true, false, ◌==◌, ltb, leb, if◌then◌else◌,
  bit_and, bit_or,
}

abbrev pub Mem : Type 0
Mem = ℕ → ℕ

-- Every cell holds a byte.
abbrev pub IsBytes : Mem → Type 0
IsBytes m = (a : ℕ) → m a < 256

-- `*(u8 *)a = v`
unfoldable pub store8 : Mem → ℕ → ℕ → Mem
store8 m a v x = if x == a then v % 256 else m x

-- A read and a write of `w` bytes, least significant byte first.
unfoldable pub load : ℕ → Mem → ℕ → ℕ
load zero m a = 0
load (suc w) m a = m a + 256 * load w m (a + 1)

unfoldable pub store : ℕ → Mem → ℕ → ℕ → Mem
store zero m a v = m
store (suc w) m a v = store w (store8 m a v) (a + 1) (v / 256)

-- The variables of a copying loop.
pub record Cursor : Type 0 where
  pub mem : Mem
  pub dstaddr : ℕ
  pub srcaddr : ℕ
  pub count : ℕ

-- The body of `while (count >= w)` in kmemcpy.
unfoldable pub copy_word : ℕ → Cursor → Cursor
copy_word w s = record {
  mem = store w s.mem s.dstaddr (load w s.mem s.srcaddr);
  dstaddr = s.dstaddr + w;
  srcaddr = s.srcaddr + w;
  count = s.count - w;
}

-- `while (count >= w) ...`, on fuel; `count` rounds are enough for a positive `w`.
unfoldable pub copy_loop : ℕ → ℕ → Cursor → Cursor
copy_loop w zero s = s
copy_loop w (suc fuel) s = elim (leb w s.count) [
  | true ↦ copy_loop w fuel (copy_word w s)
  | false ↦ s
]

unfoldable pub kmemcpy : Mem → ℕ → ℕ → ℕ → Mem
unfolding copy_loop copy_word
kmemcpy m dst src count =
    if count == 0
    then m
    else (copy_loop 1 count (
        copy_loop 2 count (
          copy_loop 4 count (
            copy_loop 8 count
              (record { mem = m; dstaddr = dst; srcaddr = src; count = count }))))).mem

-- `for (usz i = n; i > 0; i--) pdest[i - 1] = psrc[i - 1];`
unfoldable pub move_down : ℕ → Mem → ℕ → ℕ → Mem
move_down zero m dest src = m
move_down (suc i) m dest src = move_down i (store8 m (dest + i) (m (src + i))) dest src

unfoldable pub kmemmove : Mem → ℕ → ℕ → ℕ → Mem
unfolding move_down
kmemmove m dest src n =
    if ltb dest src
    then kmemcpy m dest src n
    else if ltb src dest
    then move_down n m dest src
    else m

-- `val |= ((val << k) & mask)` three times: the low byte of `sval` in all eight bytes of a u64.
unfoldable pub widen : ℕ → ℕ
widen b =
    let h = bit_or b (bit_and (b * 2 ^ 8) 0xff00) in
    let q = bit_or h (bit_and (h * 2 ^ 16) 0xffff_0000) in
    bit_or q (bit_and (q * 2 ^ 32) 0xffff_ffff_0000_0000)

unfoldable pub spread : ℕ → ℕ
spread sval = widen (bit_and sval 0xff)

-- The variables of a filling loop, and the loop `while (count >= w)` of kmemset.
pub record Filler : Type 0 where
  pub mem : Mem
  pub addr : ℕ
  pub count : ℕ

unfoldable pub fill_loop : ℕ → ℕ → ℕ → Filler → Filler
fill_loop val w zero s = s
fill_loop val w (suc fuel) s = elim (leb w s.count) [
  | true ↦
      fill_loop val w fuel
        (record { mem = store w s.mem s.addr val; addr = s.addr + w; count = s.count - w })
  | false ↦ s
]

-- `sval` is the bit pattern of the i32.
unfoldable pub kmemset : Mem → ℕ → ℕ → ℕ → Mem
kmemset m dst sval count =
    if count == 0
    then m
    else (let val = spread sval in
        fill_loop val 1 count (
          fill_loop val 2 count (
            fill_loop val 4 count
              (fill_loop val 8 count (record { mem = m; addr = dst; count = count }))))).mem

-- -1 as an i32.
abbrev pub minus_one : ℕ
minus_one = 2 ^ 32 - 1

-- The loop of kmemcmp, with `n - i` rounds left at addresses `p1 + i` and `p2 + i`.
unfoldable pub compare_loop : ℕ → Mem → ℕ → ℕ → ℕ
compare_loop zero m p1 p2 = 0
compare_loop (suc n) m p1 p2 = elim (m p1 == m p2) [
  | true ↦ compare_loop n m (p1 + 1) (p2 + 1)
  | false ↦ if ltb (m p1) (m p2) then minus_one else 1
]

unfoldable pub kmemcmp : Mem → ℕ → ℕ → ℕ → ℕ
kmemcmp m s1 s2 n = if n == 0 then 0 else compare_loop n m s1 s2
