-- ===== src/Hw/Pci/Names.antt =====
-- kernel/src/hw/pci/pci_name.c: the names of the class, the subclass and the type of a device.
use limix.Base.{ℕ, ◌*◌, ◌/◌, ◌%◌, ◌==◌, ltb, if◌then◌else◌}
use limix.Hw.Pci.{
  PciHeader, Buses, Place, pci_offset_all_class, pci_offset_all_prog_if, pci_config_read_word,
  pci_config_read_byte, pcie_get_device,
}
use limix.Hw.Pci.Texts.{
  Named, text, element, get_subclass_name, get_progif_name, class_name, ms_sata_pis, disp_vga_pis,
  pis_usb,
}

-- What the functions read of a device, through PCIe or the ports, and "-" where there is no header.
abbrev pub with_header : Place → Buses → (PciHeader → Named) → Named → Named
with_header p s named ports =
    let dev = pcie_get_device p.bus p.slot p.func s in
    if s.initialized then if dev == 0 then text "-" else named (s.header_at dev) else ports

abbrev pub class_byte : Place → Buses → ℕ
class_byte p s = pci_config_read_word p.bus p.slot p.func pci_offset_all_class s % 256

unfoldable pub pci_get_classname : Place → Buses → Named
unfolding class_name
pci_get_classname p s = with_header p s (λ h. class_name h.class_code) (class_name (class_byte p s))

unfoldable pub pci_get_subclassname : Place → Buses → Named
unfolding get_subclass_name
pci_get_subclassname p s =
    with_header p s (λ h. get_subclass_name h.class_code h.subclass)
      (get_subclass_name (class_byte p s) (class_byte p s))

-- The switch of pci_get_typename, with the answers of the two functions that it may call last.
unfoldable pub type_name : ℕ → ℕ → ℕ → Named → Named → Named
unfolding element get_progif_name get_subclass_name
type_name c sc pi subclass class =
    if c == 1
    then if sc == 6 then element ms_sata_pis pi else text "SATA Controller"
    else if c == 3
    then if sc == 0 then element disp_vga_pis pi else subclass
    else if c == 12
    then if sc == 3
      then if ltb 3 (pi / 16)
        then get_progif_name c sc (pi / 16 * 16)
        else element pis_usb (pi / 16)
      else get_subclass_name c sc
    else class

unfoldable pub pci_get_typename : Place → Buses → Named
unfolding type_name
pci_get_typename p s =
    let subclass = pci_get_subclassname p s in
    let class = pci_get_classname p s in
    let interface = pci_config_read_byte p.bus p.slot p.func pci_offset_all_prog_if s in
    with_header p s (λ h. type_name h.class_code h.subclass h.prog_if subclass class)
      (type_name (class_byte p s) (class_byte p s) interface subclass class)
