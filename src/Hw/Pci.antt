-- ===== src/Hw/Pci.antt =====
-- kernel/src/hw/pci/pci_access.c and kernel/src/hw/pcie/pcie.c: the configuration space
-- through the two ports and through the regions that the MCFG table lists. A device is what it
-- answers: a word for each address that the port gets, a header at each address in memory.
pub mod Access
pub mod Regions
pub mod Enumerate
pub mod Search
pub mod Texts
pub mod Names
pub mod Arrays
pub mod Registry
pub mod Entries
mod Tests
use limix.Base.{
  ℕ, zero, suc, ◌+◌, ◌-◌, ◌*◌, ◌/◌, ◌%◌, ◌^◌, Bool, true, false, not, ◌&&◌, ◌||◌, ◌==◌, ltb, leb,
  if◌then◌else◌, Option, none, some, List, [], ◌∷◌, ◌++◌, bit_and, bit_or,
}

-- `PciHeader`, as far as the files named above read it.
pub record PciHeader : Type 0 where
  pub vendor_id : ℕ
  pub device_id : ℕ
  pub prog_if : ℕ
  pub subclass : ℕ
  pub class_code : ℕ

-- `PcieRegion`
pub record PcieRegion : Type 0 where
  pub start : ℕ
  pub end : ℕ
  pub base : ℕ

-- The static variables of pcie.c, and the devices.
pub record Buses : Type 0 where
  pub regions : ℕ → PcieRegion
  pub region_count : ℕ
  pub initialized : Bool
  pub header_at : ℕ → PciHeader
  pub config : ℕ → ℕ

abbrev pub pci_offset_all_device : ℕ
pci_offset_all_device = 0

abbrev pub pci_offset_all_vendor : ℕ
pci_offset_all_vendor = 2

abbrev pub pci_offset_all_class : ℕ
pci_offset_all_class = 9

abbrev pub pci_offset_all_prog_if : ℕ
pci_offset_all_prog_if = 11

-- The number for the address port.
unfoldable pub config_address : ℕ → ℕ → ℕ → ℕ → ℕ
config_address bus device func offset =
    bit_or
      (bit_or (bit_or (bit_or (bus * 2 ^ 16) (device * 2 ^ 11)) (func * 2 ^ 8))
        (bit_and offset 0xfc))
      0x80000000

unfoldable pub pci_config_read_word : ℕ → ℕ → ℕ → ℕ → Buses → ℕ
unfolding config_address
pci_config_read_word bus device func offset s =
    let word = s.config (config_address bus device func offset) in
    let data015 = word % 2 ^ 16 in
    let data1531 = word / 2 ^ 16 % 2 ^ 16 in
    bit_or (data015 * 2 ^ 16) data1531 / 2 ^ (bit_and offset 2 * 8) % 2 ^ 16

-- In C, `>>` binds more than `&`.
unfoldable pub pci_config_read_byte : ℕ → ℕ → ℕ → ℕ → Buses → ℕ
unfolding pci_config_read_word
pci_config_read_byte bus slot func offset s =
    let shift = 8 * (1 - offset % 2) in
    bit_and (pci_config_read_word bus slot func offset s) (0xff * 2 ^ shift / 2 ^ shift)

unfoldable pub pci_check_vendor : ℕ → ℕ → Buses → ℕ
unfolding pci_config_read_word
pci_check_vendor bus slot s = pci_config_read_word bus slot 0 pci_offset_all_vendor s

-- `for (u8 i = 0; i < region_count; i++)`, with the rounds that are left.
unfoldable pub find_region : ℕ → ℕ → ℕ → (ℕ → PcieRegion) → Option PcieRegion
find_region zero i b regions = none
find_region (suc left) i b regions =
    let rest = find_region left (i + 1) b regions in
    if leb (regions i).start b && leb b (regions i).end then some (regions i) else rest

-- The address of a header, 0 if no region has the bus.
unfoldable pub pcie_get_device : ℕ → ℕ → ℕ → Buses → ℕ
unfolding find_region
pcie_get_device b s f buses = elim (find_region buses.region_count 0 b buses.regions) [
  | none ↦ 0
  | some r ↦ (((b - r.start) * 256 + s * 8 + f) * 0x1000 + r.base) % 2 ^ 64
]

-- The bus, slot and function of a round of the three loops.
pub record Place : Type 0 where
  pub bus : ℕ
  pub slot : ℕ
  pub func : ℕ

-- `for (x = first; x < first + left; x++)` around another loop.
unfoldable pub each : ℕ → ℕ → (ℕ → List Place) → List Place
each zero first inner = []
each (suc left) first inner = inner first ++ each left (first + 1) inner

-- The rounds of the loops over 256 buses, 32 slots and 8 functions, in order.
unfoldable pub places : List Place
unfolding each
places = each 256 0 λ b. each 32 0 λ s. each 8 0 λ f. record { bus = b; slot = s; func = f } ∷ []

-- `AcpiMcfgCsbaa`
pub record AcpiMcfgCsbaa : Type 0 where
  pub base_addr : ℕ
  pub start_bus : ℕ
  pub end_bus : ℕ

abbrev pub hhdm : ℕ → ℕ → ℕ
hhdm hhaddr addr = if ltb addr hhaddr then (addr + hhaddr) % 2 ^ 64 else addr

-- A round of the loop over the entries; `region_count` is a u8.
abbrev pub add_region : ℕ → AcpiMcfgCsbaa → Buses → Buses
add_region hhaddr c s = record s {
  regions = λ i.
      if i == s.region_count
      then record { start = c.start_bus; end = c.end_bus; base = hhdm hhaddr c.base_addr }
      else s.regions i;
  region_count = (s.region_count + 1) % 256;
}

unfoldable pub add_regions : ℕ → List AcpiMcfgCsbaa → Buses → Buses
add_regions hhaddr [] s = s
add_regions hhaddr (c ∷ cs) s = add_regions hhaddr cs (add_region hhaddr c s)

-- The tests before the callback.
unfoldable pub is_device : ℕ → Buses → Bool
is_device dev s =
    let h = s.header_at dev in
    not (dev == 0)
    && not (h.vendor_id == 0 || h.vendor_id == 0xffff)
    && not (h.device_id == 0 || h.device_id == 0xffff)

-- The headers that the callback gets, in order.
unfoldable pub offered : List Place → Buses → List ℕ
unfolding is_device
offered [] s = []
offered (p ∷ ps) s =
    let rest = offered ps s in
    let dev = pcie_get_device p.bus p.slot p.func s in if is_device dev s then dev ∷ rest else rest

-- `mcfg` has the entries of the table, if acpi_get finds it. The headers are those that the callback
-- gets.
unfoldable pub pcie_init : ℕ → Option (List AcpiMcfgCsbaa) → Buses → Bool × List ℕ × Buses
unfolding add_regions offered
pcie_init hhaddr none s = (false, [], s)
pcie_init hhaddr (some []) s = (false, [], s)
pcie_init hhaddr (some (c ∷ cs)) s =
    let s1 = record (add_regions hhaddr (c ∷ cs) s) { initialized = true } in
    (true, offered places s1, s1)
