-- ===== src/Hw/Pci/Access.antt =====
-- What the words and bytes of the configuration space are.
use limix.Base.{
  ℕ, ◌+◌, ◌-◌, ◌*◌, ◌/◌, ◌%◌, ◌^◌, ◌<◌, ◌≡◌, refl, ap, ◌∙◌, arith, ◌==◌, if◌then◌else◌, bit_and,
  bit_or, Bool-cases, inl, inr, holds_below, holds_below-lt,
}
use limix.Base.Bits.{bit_or-fields, bit_or-high, zero-bit_or, bit_and-low_mask}
use limix.Hw.Pci.{Buses, config_address, pci_config_read_word, pci_config_read_byte}

offset_dword : (o : ℕ) → o < 256 → bit_and o 0xfc ≡ o / 4 * 4
unfolding holds_below
offset_dword o l = ground (arith, holds_below-lt 256 (λ x. bit_and x 0xfc == x / 4 * 4) o refl l)

offset_half : (o : ℕ) → o < 256 → bit_and o 2 ≡ o / 2 % 2 * 2
unfolding holds_below
offset_half o l = ground (arith, holds_below-lt 256 (λ x. bit_and x 2 == x / 2 % 2 * 2) o refl l)

-- The address of the dword that holds a register.
abbrev pub dword_of : ℕ → ℕ → ℕ → ℕ → ℕ
dword_of bus device func offset =
    2 ^ 31 + bus * 2 ^ 16 + device * 2 ^ 11 + func * 2 ^ 8 + offset / 4 * 4

join_fields :
    (k hi lo joined : ℕ) → lo < 2 ^ k → joined ≡ hi * 2 ^ k → bit_or joined lo ≡ joined + lo
join_fields k hi lo joined l e = rw e (bit_or-fields k hi lo l)

config_address-dword_of :
    (bus device func offset : ℕ)
    → bus < 256
    → device < 32
    → func < 8
    → offset < 256
    → config_address bus device func offset ≡ dword_of bus device func offset
unfolding config_address
config_address-dword_of bus device func offset lb ld lf lo =
    rw
      (
        offset_dword offset lo,
        join_fields 16 bus (device * 2 ^ 11) (bus * 2 ^ 16) (omega arith) refl,
        join_fields 11 (bus * 32 + device) (func * 2 ^ 8) (bus * 2 ^ 16 + device * 2 ^ 11)
            (omega arith) (omega arith),
        join_fields 8 (bus * 256 + device * 8 + func) (offset / 4 * 4)
            (bus * 2 ^ 16 + device * 2 ^ 11 + func * 2 ^ 8) (omega arith) (omega arith),
      )
      (top ∙ omega arith)
  where
    rest : ℕ
    rest = bus * 2 ^ 16 + device * 2 ^ 11 + func * 2 ^ 8 + offset / 4 * 4

    top : bit_or rest 0x80000000 ≡ 0x80000000 + rest
    top =
        ap (λ (t : ℕ). bit_or t 0x80000000) (omega arith)
        ∙ bit_or-high 31 0 rest 1 (omega arith)
        ∙ omega (arith, zero-bit_or 1)

-- The half of a dword that a register's offset selects: the upper one for offsets 0 and 1.
abbrev pub half : ℕ → ℕ → ℕ
half offset word = if offset / 2 % 2 == 0 then word / 2 ^ 16 % 2 ^ 16 else word % 2 ^ 16

swapped :
    (word : ℕ)
    → bit_or (word % 2 ^ 16 * 2 ^ 16) (word / 2 ^ 16 % 2 ^ 16)
      ≡ word % 2 ^ 16 * 2 ^ 16 + word / 2 ^ 16 % 2 ^ 16
swapped word = bit_or-fields 16 (word % 2 ^ 16) (word / 2 ^ 16 % 2 ^ 16) (omega arith)

select :
    (lo hi offset : ℕ)
    → lo < 2 ^ 16
    → hi < 2 ^ 16
    → (lo * 2 ^ 16 + hi) / 2 ^ (offset / 2 % 2 * 2 * 8) % 2 ^ 16
      ≡ (if offset / 2 % 2 == 0 then hi else lo)
select lo hi offset l h = elim (Bool-cases (offset / 2 % 2 == 0)) [
  | inl e ↦ let z : offset / 2 % 2 ≡ 0 = ground arith in rw z (omega arith)
  | inr e ↦ let one : offset / 2 % 2 ≡ 1 = ground arith in rw one (omega arith)
]

-- For a bus below 256, a device below 32, a function below 8 and an offset below 256,
-- pci_config_read_word asks for the dword of the register, with the four numbers in fields of their
-- own below the bit that enables it, and gives its upper half where bit 1 of the offset is clear and
-- its lower half where it is set.
pub pci_config_read_word-half :
    (bus device func offset : ℕ) (s : Buses)
    → bus < 256
    → device < 32
    → func < 8
    → offset < 256
    → pci_config_read_word bus device func offset s
      ≡ half offset (s.config (dword_of bus device func offset))
unfolding pci_config_read_word
pci_config_read_word-half bus device func offset s lb ld lf lo =
    let word = s.config (dword_of bus device func offset) in
    rw
      (
        config_address-dword_of bus device func offset lb ld lf lo,
        offset_half offset lo,
        swapped word,
      )
      (select (word % 2 ^ 16) (word / 2 ^ 16 % 2 ^ 16) offset (omega arith) (omega arith))

-- pci_config_read_byte gives the low byte of that half, at an even offset as at an odd one.
pub pci_config_read_byte-low :
    (bus device func offset : ℕ) (s : Buses)
    → bus < 256
    → device < 32
    → func < 8
    → offset < 256
    → pci_config_read_byte bus device func offset s
      ≡ half offset (s.config (dword_of bus device func offset)) % 256
unfolding pci_config_read_byte
pci_config_read_byte-low bus device func offset s lb ld lf lo =
    rw (pci_config_read_word-half bus device func offset s lb ld lf lo, mask offset)
      (bit_and-low_mask 8 _)
  where
    mask : (o : ℕ) → 0xff * 2 ^ (8 * (1 - o % 2)) / 2 ^ (8 * (1 - o % 2)) ≡ 0xff
    mask o = elim (Bool-cases (o % 2 == 0)) [
      | inl e ↦ let z : o % 2 ≡ 0 = ground arith in rw z refl
      | inr e ↦ let one : o % 2 ≡ 1 = ground arith in rw one refl
    ]
