-- ===== src/Hw/Pci/Tests.antt =====
-- A machine with one region for the buses 0 to 1, and a registry of two vendors.
use limix.Base.{
  ℕ, zero, suc, ◌^◌, ◌<◌, ◌≡◌, refl, ap, ◌∙◌, arith, true, false, ◌==◌, if◌then◌else◌, none, some,
  List, [], ◌∷◌, length, get_elem?,
}
use limix.Base.Run.{ok}
use limix.Libk.Memory.{Mem, load}
use limix.Hw.Pci.{
  PciHeader, PcieRegion, Buses, Place, places, AcpiMcfgCsbaa, pci_config_read_word, pcie_get_device,
  pcie_init,
}
use limix.Hw.Pci.Enumerate.{pci_search, ids_at}
use limix.Hw.Pci.Regions.{header_in, entry_of, pcie_init-header_in}
use limix.Hw.Pci.Search.{Answers, matching, matching_other, matching_none, pci_search-matching}
use limix.Hw.Pci.Texts.{text}
use limix.Hw.Pci.Names.{pci_get_typename}
use limix.Hw.Pci.Arrays.{is_behind, unnamed_type, pci_get_typename-behind}
use limix.Hw.Pci.Registry.{LimineFile, bytes_at, find_module, pci_vendors, get_vendor_name}
use limix.Hw.Pci.Entries.{vendor_name, get_vendor_name-entry}

abbrev sata : PciHeader
sata = record { vendor_id = 0x8086; device_id = 1; prog_if = 3; subclass = 6; class_code = 1 }

abbrev no_region : PcieRegion
no_region = record { start = 0; end = 0; base = 0 }

abbrev machine : Buses
machine = record {
  regions = λ i. no_region;
  region_count = 0;
  initialized = false;
  header_at = λ a. sata;
  config = λ a. 0;
}

abbrev entry : AcpiMcfgCsbaa
entry = record { base_addr = 0xe0000000; start_bus = 0; end_bus = 1 }

pcie_init-header_in_example :
    (devices : List ℕ) × (after : Buses) × (pcie_init 0x1000 (some (entry ∷ [])) machine
      ≡ (true, devices, after))
    × ((b s f : ℕ) → pcie_get_device b s f after ≡ header_in 0x1000 b s f (entry_of b (entry ∷ [])))
pcie_init-header_in_example = pcie_init-header_in 0x1000 entry [] machine refl (omega arith)

ports_answer : (ps : List Place) → Answers ps machine
unfolding ids_at
ports_answer [] = tt
ports_answer (p ∷ ps) = ((_, refl), ports_answer ps)

zero_ids : (p : Place) → ids_at p machine ≡ some (0, 0)
unfolding ids_at pci_config_read_word
zero_ids p = refl

no_match : (ps : List Place) → matching 5 6 ps machine ≡ []
no_match [] = matching_none 5 6 machine
no_match (p ∷ ps) = matching_other 5 6 machine p ps 0 0 (zero_ids p) refl ∙ no_match ps

few_match : length (matching 5 6 places machine) < 2 ^ 16
few_match = omega (arith, ap length (no_match places))

pci_search-matching_example :
    pci_search 5 6 0 machine ≡ some (get_elem? (matching 5 6 places machine) 0)
pci_search-matching_example = pci_search-matching 5 6 machine 0 (ports_answer places) few_match

abbrev ready : Buses
ready = record machine {
  initialized = true;
  region_count = 1;
  regions = λ i. record { start = 0; end = 255; base = 0x1000 };
}

abbrev here : Place
here = record { bus = 0; slot = 1; func = 0 }

pci_get_typename-behind_example :
    (is_behind (pci_get_typename here ready)
      ≡ (if pcie_get_device 0 1 0 ready == 0 then false else unnamed_type 1 6 3))
    × (pci_get_typename here ready
        ≡ (if pcie_get_device 0 1 0 ready == 0 then text "-" else pci_get_typename here ready))
pci_get_typename-behind_example = pci_get_typename-behind here ready refl

abbrev registry_bytes : List ℕ
registry_bytes = 0x86 ∷ 0x80 ∷ 5 ∷ 0 ∷ b'I' ∷ 0x22 ∷ 0x10 ∷ 5 ∷ 0 ∷ b'A' ∷ []

abbrev byte_of : List ℕ → ℕ → ℕ
byte_of [] a = 0
byte_of (b ∷ bs) zero = b
byte_of (b ∷ bs) (suc a) = byte_of bs a

abbrev registry_mem : Mem
registry_mem a = byte_of registry_bytes a

abbrev file : LimineFile
file = record { cmdline = pci_vendors; address = 0; size = 10 }

abbrev vendors : List (ℕ × List ℕ)
vendors = (0x8086, b'I' ∷ []) ∷ (0x1022, b'A' ∷ []) ∷ []

get_vendor_name-entry_example :
    get_vendor_name 3 0 0x1022 registry_mem (some (file ∷ [])) none
    ≡ (ok (vendor_name 0x1022 vendors), some file)
unfolding find_module load bytes_at
get_vendor_name-entry_example =
    get_vendor_name-entry 3 0 0x1022 registry_mem (file ∷ []) file vendors refl
      (refl, refl, omega arith, refl, (refl, refl, omega arith, refl, tt)) refl (omega arith)
      (omega arith)
