-- ===== src/Hw/Pci/Enumerate.antt =====
-- kernel/src/hw/pci/enumerate.c: counting and searching devices.
use limix.Base.{
  ℕ, ◌+◌, ◌%◌, ◌^◌, not, ◌||◌, ◌==◌, ltb, if◌then◌else◌, Option, none, some, List, [], ◌∷◌,
}
use limix.Hw.Pci.{
  Buses, Place, places, pci_offset_all_vendor, pci_offset_all_device, pci_config_read_word,
  pcie_get_device,
}

-- The vendor and the device of a place. `none` is a read through a null pointer.
unfoldable pub ids_at : Place → Buses → Option (ℕ × ℕ)
unfolding pcie_get_device pci_config_read_word
ids_at p s =
    let dev = pcie_get_device p.bus p.slot p.func s in
    if s.initialized
    then if dev == 0 then none else some ((s.header_at dev).vendor_id, (s.header_at dev).device_id)
    else some (
      pci_config_read_word p.bus p.slot p.func pci_offset_all_vendor s,
      pci_config_read_word p.bus p.slot p.func pci_offset_all_device s,
    )

-- The loops of pci_get_count; `c` is a u16.
unfoldable pub count_loop : ℕ → ℕ → List Place → ℕ → Buses → Option ℕ
unfolding ids_at
count_loop vendor device [] c s = some c
count_loop vendor device (p ∷ ps) c s = elim (ids_at p s) [
  | none ↦ none
  | some (v, d) ↦
      count_loop vendor device ps
        (if not (v == vendor) || not (d == device) then c else (c + 1) % 2 ^ 16) s
]

unfoldable pub pci_get_count : ℕ → ℕ → Buses → Option ℕ
unfolding count_loop
pci_get_count vendor device s = count_loop vendor device places 0 s

-- The loops of pci_search. An address that does not exist is `some none`.
unfoldable pub search_loop : ℕ → ℕ → ℕ → List Place → ℕ → Buses → Option (Option Place)
unfolding ids_at
search_loop vendor device number [] c s = some none
search_loop vendor device number (p ∷ ps) c s = elim (ids_at p s) [
  | none ↦ none
  | some (v, d) ↦
      let next = search_loop vendor device number ps ((c + 1) % 2 ^ 16) s in
      let same = search_loop vendor device number ps c s in
      if not (v == vendor) || not (d == device)
      then same
      else if c == number
      then some (some p)
      else next
]

unfoldable pub pci_search : ℕ → ℕ → ℕ → Buses → Option (Option Place)
unfolding pci_get_count search_loop
pci_search vendor device number s = elim (pci_get_count vendor device s) [
  | none ↦ none
  | some count ↦ if ltb count number then some none else search_loop vendor device number places 0 s
]
