-- ===== src/Hw/Pci/Registry.antt =====
-- kernel/src/hw/pci/pci_name.c: the names of vendors and devices, from the registries that the boot
-- loader loads as modules. A name that is copied is on the heap; the model has its bytes.
use limix.Base.{
  ℕ, zero, suc, ◌+◌, ◌-◌, ◌%◌, ◌^◌, Bool, true, false, ◌&&◌, ◌==◌, ltb, if◌then◌else◌, Option, none,
  some, List, [], ◌∷◌,
}
use limix.Base.Run.{Run, ok, out_of_fuel}
use limix.Libk.Memory.{Mem, load}
use limix.Libk.Strings.Equal.{agree}
use limix.Hw.Pci.{
  Buses, Place, hhdm, pci_offset_all_device, pci_offset_all_vendor, pci_config_read_word,
  pcie_get_device,
}
use limix.Hw.Pci.Texts.{Named, text, copied}

-- `struct limine_file`
pub record LimineFile : Type 0 where
  pub cmdline : List ℕ
  pub address : ℕ
  pub size : ℕ

unfoldable pub bytes_at : Mem → ℕ → ℕ → List ℕ
bytes_at m a zero = []
bytes_at m a (suc n) = m a ∷ bytes_at m (a + 1) n

-- The first module whose command line starts with the eleven bytes.
unfoldable pub find_module : List ℕ → List LimineFile → Option LimineFile
find_module name [] = none
find_module name (f ∷ fs) =
    let rest = find_module name fs in if agree 11 name f.cmdline then some f else rest

abbrev pub pci_vendors : List ℕ
pci_vendors = b'p' ∷ b'c' ∷ b'i' ∷ b'_' ∷ b'v' ∷ b'e' ∷ b'n' ∷ b'd' ∷ b'o' ∷ b'r' ∷ b's' ∷ []

abbrev pub pci_devices : List ℕ
pci_devices = b'p' ∷ b'c' ∷ b'i' ∷ b'_' ∷ b'd' ∷ b'e' ∷ b'v' ∷ b'i' ∷ b'c' ∷ b'e' ∷ b's' ∷ []

-- The loop over a registry whose entries have `header` bytes before the name, the size in the last
-- two of them. `is_entry` is the test for the entry at an address.
unfoldable pub registry_loop : ℕ → ℕ → (ℕ → Bool) → Mem → ℕ → ℕ → ℕ → Run Named
registry_loop zero header is_entry m registry offset size = out_of_fuel
registry_loop (suc fuel) header is_entry m registry offset size =
    let length = load 2 m (registry + (header - 2)) in
    elim (ltb offset size) [
      | false ↦ ok (text "-")
      | true ↦ elim (is_entry registry) [
        | true ↦ ok (copied (bytes_at m (registry + header) ((length + 2 ^ 16 - header) % 2 ^ 16)))
        | false ↦
            registry_loop fuel header is_entry m (registry + length) ((offset + length) % 2 ^ 64)
              size
      ]
    ]

-- The registry that was found before, or the module; and what is known of it afterwards. Without the
-- boot loader's answer there are no modules.
abbrev pub in_registry :
    List ℕ
    → Option (List LimineFile)
    → Option LimineFile
    → (LimineFile → Run Named)
    → Run Named × Option LimineFile
in_registry name none registry search = (ok (text "-"), registry)
in_registry name (some modules) (some f) search = (search f, some f)
in_registry name (some modules) none search = elim (find_module name modules) [
  | none ↦ (ok (text "-"), none)
  | some f ↦ (search f, some f)
]

abbrev pub is_vendor : Mem → ℕ → ℕ → Bool
is_vendor m id registry = load 2 m registry == id

unfoldable pub get_vendor_name :
    ℕ → ℕ → ℕ → Mem → Option (List LimineFile) → Option LimineFile → Run Named × Option LimineFile
unfolding registry_loop find_module
get_vendor_name fuel hhaddr id m modules registry =
    in_registry pci_vendors modules registry
      λ f. registry_loop fuel 4 (is_vendor m id) m (hhdm hhaddr f.address) 0 f.size

abbrev pub is_device_of : Mem → ℕ → ℕ → ℕ → Bool
is_device_of m v d registry = if load 2 m registry == v then load 2 m (registry + 2) == d else false

unfoldable pub get_device_name :
    ℕ
    → ℕ
    → ℕ
    → ℕ
    → Mem
    → Option (List LimineFile)
    → Option LimineFile
    → Run Named × Option LimineFile
unfolding registry_loop find_module
get_device_name fuel hhaddr v d m modules registry =
    in_registry pci_devices modules registry
      λ f. registry_loop fuel 6 (is_device_of m v d) m (hhdm hhaddr f.address) 0 f.size

-- The names of a place; without a header it is "-".
module _ (fuel hhaddr : ℕ) (m : Mem) (modules : Option (List LimineFile)) where
  unfoldable pub pci_get_vendor_name :
      Place → Buses → Option LimineFile → Run Named × Option LimineFile
  unfolding get_vendor_name
  pci_get_vendor_name p s registry =
      let dev = pcie_get_device p.bus p.slot p.func s in
      let vendor =
        if s.initialized
        then (s.header_at dev).vendor_id
        else pci_config_read_word p.bus p.slot p.func pci_offset_all_vendor s in
      if s.initialized && dev == 0
      then (ok (text "-"), registry)
      else get_vendor_name fuel hhaddr vendor m modules registry

  unfoldable pub pci_get_device_name :
      Place → Buses → Option LimineFile → Run Named × Option LimineFile
  unfolding get_device_name
  pci_get_device_name p s registry =
      let dev = pcie_get_device p.bus p.slot p.func s in
      let h = s.header_at dev in
      let vendor =
        if s.initialized
        then h.vendor_id
        else pci_config_read_word p.bus p.slot p.func pci_offset_all_vendor s in
      let device =
        if s.initialized
        then h.device_id
        else pci_config_read_word p.bus p.slot p.func pci_offset_all_device s in
      if s.initialized && dev == 0
      then (ok (text "-"), registry)
      else get_device_name fuel hhaddr vendor device m modules registry
