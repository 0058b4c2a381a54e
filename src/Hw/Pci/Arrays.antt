-- ===== src/Hw/Pci/Arrays.antt =====
-- Which names stand behind the end of an array.
use limix.Base.{
  ℕ, zero, suc, ◌*◌, ◌/◌, ◌≡◌, refl, ◌∙◌, arith, Bool, true, false, ◌&&◌, ◌||◌, ◌==◌, ltb, leb,
  if◌then◌else◌, List, [], ◌∷◌, length, Bool-cases, inl, inr,
}
use Prim.Native.String.{String}
use limix.Hw.Pci.{Buses, Place, pcie_get_device}
use limix.Hw.Pci.Texts.{
  Named, text, copied, behind_array, element, mass_storage_subclass_name, serial_bus_subclass_name,
  bridge_dev_subclass_name, network_subclass_name, get_subclass_name, usb_progif_name,
  sata_progif_name, get_progif_name, class_name, device_class_names, ms_sata_pis, disp_vga_pis,
  pis_usb,
}
use limix.Hw.Pci.Names.{type_name, pci_get_classname, pci_get_subclassname, pci_get_typename}

abbrev pub is_behind : Named → Bool
is_behind (text t) = false
is_behind (copied bytes) = false
is_behind behind_array = true

element-behind : (ts : List String) (i : ℕ) → is_behind (element ts i) ≡ leb (length ts) i
unfolding element
element-behind [] i = ground arith
element-behind (t ∷ ts) zero = ground arith
element-behind (t ∷ ts) (suc i) = element-behind ts i ∙ ground arith

mass_storage_text : (sc : ℕ) → is_behind (mass_storage_subclass_name sc) ≡ false
unfolding mass_storage_subclass_name
mass_storage_text sc = ground arith

serial_bus_text : (sc : ℕ) → is_behind (serial_bus_subclass_name sc) ≡ false
unfolding serial_bus_subclass_name
serial_bus_text sc = ground arith

bridge_dev_text : (sc : ℕ) → is_behind (bridge_dev_subclass_name sc) ≡ false
unfolding bridge_dev_subclass_name
bridge_dev_text sc = ground arith

network_text : (sc : ℕ) → is_behind (network_subclass_name sc) ≡ false
unfolding network_subclass_name
network_text sc = ground arith

subclass_text : (c sc : ℕ) → is_behind (get_subclass_name c sc) ≡ false
unfolding get_subclass_name
subclass_text c sc =
    ground (arith, mass_storage_text sc, serial_bus_text sc, bridge_dev_text sc, network_text sc)

usb_text : (pi : ℕ) → is_behind (usb_progif_name pi) ≡ false
unfolding usb_progif_name
usb_text pi = ground arith

progif_text : (c sc pi : ℕ) → is_behind (get_progif_name c sc pi) ≡ false
unfolding get_progif_name sata_progif_name
progif_text c sc pi = ground (arith, usb_text pi)

class_behind : (c : ℕ) → is_behind (class_name c) ≡ (leb 20 c && ltb c 64)
unfolding class_name
class_behind c = ground (arith, element-behind device_class_names c)

-- The classes, subclasses and interfaces whose type has no name in its array.
abbrev pub unnamed_type : ℕ → ℕ → ℕ → Bool
unnamed_type c sc pi =
    c == 1 && sc == 6 && leb 3 pi || c == 3 && sc == 0 && leb 2 pi || leb 20 c && ltb c 64

type_behind :
    (c sc pi : ℕ) (subclass class : Named)
    → is_behind subclass ≡ false
    → is_behind class ≡ (leb 20 c && ltb c 64)
    → is_behind (type_name c sc pi subclass class) ≡ unnamed_type c sc pi
unfolding type_name
type_behind c sc pi subclass class h k = ground (
  arith,
  h,
  k,
  element-behind ms_sata_pis pi,
  element-behind disp_vga_pis pi,
  element-behind pis_usb (pi / 16),
  progif_text c sc (pi / 16 * 16),
  subclass_text c sc,
)

module _ (p : Place) (s : Buses) (on : s.initialized ≡ true) where
  subclassname_text : is_behind (pci_get_subclassname p s) ≡ false
  unfolding pci_get_subclassname
  subclassname_text = ground (
    arith,
    on,
    subclass_text (s.header_at (pcie_get_device p.bus p.slot p.func s)).class_code
        (s.header_at (pcie_get_device p.bus p.slot p.func s)).subclass,
  )

  classname_behind :
      (pcie_get_device p.bus p.slot p.func s == 0) ≡ false
      → is_behind (pci_get_classname p s) ≡ (
          leb 20 (s.header_at (pcie_get_device p.bus p.slot p.func s)).class_code
          && ltb (s.header_at (pcie_get_device p.bus p.slot p.func s)).class_code 64)
  unfolding pci_get_classname
  classname_behind there = ground (
    arith,
    on,
    there,
    class_behind (s.header_at (pcie_get_device p.bus p.slot p.func s)).class_code,
  )

  -- With PCIe, pci_get_typename of a device reads behind the end of an array exactly for SATA
  -- controllers whose interface is 3 or more, VGA controllers whose interface is 2 or more, and the
  -- classes 20 to 63; a place without a device is named "-".
  pub pci_get_typename-behind :
      let dev = pcie_get_device p.bus p.slot p.func s in
      let h = s.header_at dev in
      (is_behind (pci_get_typename p s)
        ≡ (if dev == 0 then false else unnamed_type h.class_code h.subclass h.prog_if))
      × (pci_get_typename p s ≡ (if dev == 0 then text "-" else pci_get_typename p s))
  unfolding pci_get_typename
  pci_get_typename-behind =
      let dev = pcie_get_device p.bus p.slot p.func s in
      let h = s.header_at dev in
      elim (Bool-cases (dev == 0)) [
        | inl e ↦ (ground (arith, on, e), ground (arith, on, e))
        | inr e ↦ (
          ground (
            arith,
            on,
            e,
            type_behind h.class_code h.subclass h.prog_if (pci_get_subclassname p s)
                (pci_get_classname p s) subclassname_text (classname_behind e),
          ),
          rw e refl,
        )
      ]
