-- ===== src/Hw/Pci/Regions.antt =====
-- The headers of the regions.
use limix.Base.{
  ℕ, ◌+◌, ◌-◌, ◌*◌, ◌%◌, ◌^◌, ◌<◌, ◌≡◌, refl, ap, ◌∙◌, arith, true, false, ◌&&◌, ◌==◌, leb,
  if◌then◌else◌, Bool-cases, inl, inr, Option, none, some, List, [], ◌∷◌, length,
}
use limix.Hw.Pci.{
  PcieRegion, Buses, find_region, pcie_get_device, AcpiMcfgCsbaa, hhdm, add_region, add_regions,
  pcie_init, offered, places,
}
use mathlib.Core.Path.{subst}

-- The region of an entry of the table.
abbrev pub region_of : ℕ → AcpiMcfgCsbaa → PcieRegion
region_of hhaddr c = record { start = c.start_bus; end = c.end_bus; base = hhdm hhaddr c.base_addr }

-- The first entry of the table that has the bus.
unfoldable pub entry_of : ℕ → List AcpiMcfgCsbaa → Option AcpiMcfgCsbaa
entry_of b [] = none
entry_of b (c ∷ cs) =
    let rest = entry_of b cs in if leb c.start_bus b && leb b c.end_bus then some c else rest

-- The header of a function in the region of an entry, 4096 bytes for each.
abbrev pub header_in : ℕ → ℕ → ℕ → ℕ → Option AcpiMcfgCsbaa → ℕ
header_in hhaddr b s f none = 0
header_in hhaddr b s f (some c) =
    (hhdm hhaddr c.base_addr + ((b - c.start_bus) * 2 ^ 20 + s * 2 ^ 15 + f * 2 ^ 12)) % 2 ^ 64

abbrev region_at : ℕ → Option AcpiMcfgCsbaa → Option PcieRegion
region_at hhaddr none = none
region_at hhaddr (some c) = some (region_of hhaddr c)

-- The regions from `i` on are those of the table.
abbrev Filled : ℕ → ℕ → List AcpiMcfgCsbaa → (ℕ → PcieRegion) → Type 0
Filled hhaddr i [] regions = Unit
Filled hhaddr i (c ∷ cs) regions =
    (regions i ≡ region_of hhaddr c) × Filled hhaddr (i + 1) cs regions

find_region-entry :
    (hhaddr i b : ℕ) (cs : List AcpiMcfgCsbaa) (regions : ℕ → PcieRegion)
    → Filled hhaddr i cs regions
    → find_region (length cs) i b regions ≡ region_at hhaddr (entry_of b cs)
unfolding find_region entry_of
find_region-entry hhaddr i b [] regions h = refl
find_region-entry hhaddr i b (c ∷ cs) regions (e, h) =
    elim (Bool-cases (leb c.start_bus b && leb b c.end_bus)) [
      | inl q ↦ rw (e, q) refl
      | inr q ↦ rw (e, q) (find_region-entry hhaddr (i + 1) b cs regions h)
    ]

add_regions_below :
    (hhaddr : ℕ) (cs : List AcpiMcfgCsbaa) (s : Buses) (j : ℕ)
    → s.region_count + length cs < 256
    → j < s.region_count
    → (add_regions hhaddr cs s).regions j ≡ s.regions j
unfolding add_regions
add_regions_below hhaddr [] s j room l = refl
add_regions_below hhaddr (c ∷ cs) s j room l =
    let count : (s.region_count + 1) % 256 ≡ s.region_count + 1 = omega arith in
    let other : (j == s.region_count) ≡ false = ground arith in
    add_regions_below hhaddr cs (add_region hhaddr c s) j (omega (arith, count))
      (omega (arith, count))
    ∙ rw other refl

add_regions-Filled :
    (hhaddr : ℕ) (cs : List AcpiMcfgCsbaa) (s : Buses)
    → s.region_count + length cs < 256
    → Filled hhaddr s.region_count cs (add_regions hhaddr cs s).regions
      × ((add_regions hhaddr cs s).region_count ≡ s.region_count + length cs)
unfolding add_regions
add_regions-Filled hhaddr [] s room = (tt, omega arith)
add_regions-Filled hhaddr (c ∷ cs) s room =
    let count : (s.region_count + 1) % 256 ≡ s.region_count + 1 = omega arith in
    let self : (s.region_count == s.region_count) ≡ true = ground arith in
    let (rest, counted) =
      add_regions-Filled hhaddr cs (add_region hhaddr c s) (omega (arith, count)) in
    (
      (
        add_regions_below hhaddr cs (add_region hhaddr c s) s.region_count (omega (arith, count))
              (omega (arith, count))
            ∙ rw self refl,
        subst
            (λ (k : ℕ). Filled hhaddr k cs (add_regions hhaddr cs (add_region hhaddr c s)).regions)
            count rest,
      ),
      omega (arith, counted, count),
    )

abbrev in_region : ℕ → ℕ → ℕ → Option PcieRegion → ℕ
in_region b s f none = 0
in_region b s f (some r) = (((b - r.start) * 256 + s * 8 + f) * 0x1000 + r.base) % 2 ^ 64

device_in :
    (hhaddr b s f : ℕ) (o : Option AcpiMcfgCsbaa)
    → in_region b s f (region_at hhaddr o) ≡ header_in hhaddr b s f o
device_in hhaddr b s f none = refl
device_in hhaddr b s f (some c) = ap (λ (t : ℕ). t % 2 ^ 64) (omega arith)

-- Where the MCFG table has 1 to 255 entries and no region is there yet, pcie_init succeeds, and from
-- then on pcie_get_device finds the header of a function in the region of the first entry that has
-- its bus, at 2 ^ 20 bytes for each bus behind the first, 2 ^ 15 for each slot and 2 ^ 12 for each
-- function, and nothing for a bus without an entry.
pub pcie_init-header_in :
    (hhaddr : ℕ) (c : AcpiMcfgCsbaa) (cs : List AcpiMcfgCsbaa) (buses : Buses)
    → buses.region_count ≡ 0
    → length (c ∷ cs) < 256
    → (devices : List ℕ) × (after : Buses) × (pcie_init hhaddr (some (c ∷ cs)) buses
        ≡ (true, devices, after))
      × ((b s f : ℕ) → pcie_get_device b s f after ≡ header_in hhaddr b s f (entry_of b (c ∷ cs)))
unfolding pcie_init pcie_get_device
pcie_init-header_in hhaddr c cs buses fresh few = (
  offered places after,
  after,
  refl,
  λ b s f.
      ap (in_region b s f) (
        ap (λ (k : ℕ). find_region k 0 b after.regions) counted
        ∙ find_region-entry hhaddr 0 b (c ∷ cs) after.regions filled)
      ∙ device_in hhaddr b s f (entry_of b (c ∷ cs)),
)
  where
    after : Buses
    after = record (add_regions hhaddr (c ∷ cs) buses) { initialized = true }

    both :
        Filled hhaddr buses.region_count (c ∷ cs) (add_regions hhaddr (c ∷ cs) buses).regions
        × ((add_regions hhaddr (c ∷ cs) buses).region_count ≡ buses.region_count + length (c ∷ cs))
    both = add_regions-Filled hhaddr (c ∷ cs) buses (omega (arith, fresh))

    counted : after.region_count ≡ length (c ∷ cs)
    counted = omega (arith, both.1, fresh)

    filled : Filled hhaddr 0 (c ∷ cs) after.regions
    filled = subst (λ (k : ℕ). Filled hhaddr k (c ∷ cs) after.regions) fresh (both.0)
