-- ===== src/Mm/Address.antt =====
-- kernel/src/mm/mm.c: canonical addresses, and which half of the address space one lies in.
mod Tests
use limix.Base.{
  ℕ, ◌+◌, ◌*◌, ◌/◌, ◌%◌, ◌^◌, ◌≤◌, ◌<◌, ◌≡◌, refl, sym, ap, ◌∙◌, arith, Bool, true, false, not, ltb,
  leb, ◌==◌, if◌then◌else◌, Bool-cases, inl, inr, bit_and, bit_or,
}
use limix.Base.Bits.{bit_and-bit, bit_and-low_mask, low_mask, bit_or-high, bit_or-low_mask}

unfoldable pub mm_fix : ℕ → ℕ
mm_fix ptr =
    if bit_and ptr 0x0000_8000_0000_0000 == 0
    then bit_and ptr 0x0000_ffff_ffff_ffff
    else bit_or ptr 0xffff_0000_0000_0000

unfoldable pub mm_is_physical : ℕ → Bool
mm_is_physical ptr = leb ptr 0xffff_8000_0000_0000

unfoldable pub mm_is_virtual : ℕ → Bool
unfolding mm_is_physical
mm_is_virtual ptr = not (mm_is_physical ptr)

-- Bit 47, and the canonical address of the low 48 bits.
abbrev pub canonical : ℕ → ℕ
canonical x = if x / 2 ^ 47 % 2 == 0 then x % 2 ^ 48 else 0xffff * 2 ^ 48 + x % 2 ^ 48

top_bits : (x : ℕ) → x < 2 ^ 64 → bit_or x (0xffff * 2 ^ 48) ≡ 0xffff * 2 ^ 48 + x % 2 ^ 48
top_bits x small =
    ap (λ y. bit_or y (0xffff * 2 ^ 48)) parts
    ∙ bit_or-high 48 (x / 2 ^ 48) (x % 2 ^ 48) 0xffff (omega arith)
    ∙ ap (λ y. y * 2 ^ 48 + x % 2 ^ 48) (bit_or-low_mask 16 (x / 2 ^ 48) (omega arith))
  where
    parts : x ≡ x / 2 ^ 48 * 2 ^ 48 + x % 2 ^ 48
    parts = omega arith

-- mm_fix of a 64-bit address copies bit 47 to the bits above and leaves the bits below.
pub mm_fix-canonical : (x : ℕ) → x < 2 ^ 64 → mm_fix x ≡ canonical x
unfolding mm_fix
mm_fix-canonical x small = ground (arith, bit_and-bit 47 x, bit_and-low_mask 48 x, top_bits x small)

-- mm_fix changes nothing in an address that it returned.
pub mm_fix-idempotent : (x : ℕ) → x < 2 ^ 64 → mm_fix (mm_fix x) ≡ mm_fix x
mm_fix-idempotent x small =
    ap mm_fix (mm_fix-canonical x small)
    ∙ mm_fix-canonical (canonical x) (ground arith)
    ∙ twice
    ∙ sym (mm_fix-canonical x small)
  where
    twice : canonical (canonical x) ≡ canonical x
    twice = ground arith
