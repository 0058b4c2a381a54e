-- ===== src/Hw/Pci/Texts.antt =====
-- The texts of kernel/src/hw/pci/pci_name.c. A name is a text of the program, the bytes that were copied
-- from a registry, or what stands behind the end of an array.
use limix.Base.{ℕ, zero, suc, ◌==◌, ltb, if◌then◌else◌, List, [], ◌∷◌}
use Prim.Native.String.{String}

pub data Named : Type 0 where
  text : String → Named
  copied : List ℕ → Named
  behind_array : Named

-- An element of an array of texts.
unfoldable pub element : List String → ℕ → Named
element [] i = behind_array
element (t ∷ ts) zero = text t
element (t ∷ ts) (suc i) = element ts i

abbrev pub device_class_names : List String
device_class_names =
    "Unclassified" ∷ "Mass Storage Controller" ∷ "Network Controller" ∷ "Display Controller"
    ∷ "Multimedia Controller" ∷ "Memory Controller" ∷ "Bridge Device"
    ∷ "Simple Communication Controller" ∷ "Base System Peripheral" ∷ "Input Device Controller"
    ∷ "Docking Station" ∷ "Processor" ∷ "Serial Bus Controller" ∷ "Wireless Controller"
    ∷ "Intelligent Controller" ∷ "Satellite Communication Controller" ∷ "Encryption Controller"
    ∷ "Signal Processing Controller" ∷ "Processing Accelerator" ∷ "Non Essential Instrumentation"
    ∷ []

unfoldable pub mass_storage_subclass_name : ℕ → Named
mass_storage_subclass_name sc =
    if sc == 0x00
    then text "SCSI Bus Controller"
    else if sc == 0x01
    then text "IDE Controller"
    else if sc == 0x02
    then text "Floppy Disk Controller"
    else if sc == 0x03
    then text "IPI Bus Controller"
    else if sc == 0x04
    then text "RAID Controller"
    else if sc == 0x05
    then text "ATA Controller"
    else if sc == 0x06
    then text "Serial ATA"
    else if sc == 0x07
    then text "Serial Attached SCSI"
    else if sc == 0x08
    then text "Non-Volatile Memory Controller"
    else if sc == 0x80
    then text "Other"
    else text "-"

unfoldable pub serial_bus_subclass_name : ℕ → Named
serial_bus_subclass_name sc =
    if sc == 0x00
    then text "FireWire (IEEE 1394) Controller"
    else if sc == 0x01
    then text "ACCESS Bus Controller"
    else if sc == 0x02
    then text "SSA Controller"
    else if sc == 0x03
    then text "USB Controller"
    else if sc == 0x04
    then text "Fibre Channel"
    else if sc == 0x05
    then text "SMBus Controller"
    else if sc == 0x06
    then text "Infiniband"
    else if sc == 0x07
    then text "IPMI Interface"
    else if sc == 0x08
    then text "SERCOS Interface (IEC 61491)"
    else if sc == 0x09
    then text "CANbus"
    else if sc == 0x80
    then text "SerialBusController - Other"
    else text "-"

unfoldable pub bridge_dev_subclass_name : ℕ → Named
bridge_dev_subclass_name sc =
    if sc == 0x00
    then text "Host Bridge"
    else if sc == 0x01
    then text "ISA Bridge"
    else if sc == 0x02
    then text "EISA Bridge"
    else if sc == 0x03
    then text "MCA Bridge"
    else if sc == 0x04
    then text "PCI-to-PCI Bridge"
    else if sc == 0x05
    then text "PCMCIA Bridge"
    else if sc == 0x06
    then text "NuBus Bridge"
    else if sc == 0x07
    then text "CardBus Bridge"
    else if sc == 0x08
    then text "RACEway Bridge"
    else if sc == 0x09
    then text "PCI-to-PCI Bridge"
    else if sc == 0x0a
    then text "InfiniBand-to-PCI Host Bridge"
    else if sc == 0x80
    then text "Other"
    else text "-"

unfoldable pub network_subclass_name : ℕ → Named
network_subclass_name sc =
    if sc == 0x00
    then text "Ethernet Controller"
    else if sc == 0x01
    then text "Token Ring Controller"
    else if sc == 0x02
    then text "FDDI Controller"
    else if sc == 0x03
    then text "ATM Controller"
    else if sc == 0x04
    then text "ISDN Controller"
    else if sc == 0x05
    then text "WorldFlip Controller"
    else if sc == 0x06
    then text "PICMG 2.14 Multi Computing Controller"
    else if sc == 0x07
    then text "Infiniband Controller"
    else if sc == 0x08
    then text "Fabric Controller"
    else if sc == 0x80
    then text "Other"
    else text "-"

unfoldable pub get_subclass_name : ℕ → ℕ → Named
unfolding mass_storage_subclass_name network_subclass_name bridge_dev_subclass_name
    serial_bus_subclass_name
get_subclass_name c sc =
    if c == 0x01
    then mass_storage_subclass_name sc
    else if c == 0x02
    then network_subclass_name sc
    else if c == 0x03
    then if sc == 0x00 then text "VGA Compatible Controller" else text "-"
    else if c == 0x06
    then bridge_dev_subclass_name sc
    else if c == 0x0c
    then serial_bus_subclass_name sc
    else text "-"

unfoldable pub sata_progif_name : ℕ → Named
sata_progif_name pi =
    if pi == 0x00
    then text "Vendor Specific Interface"
    else if pi == 0x01
    then text "AHCI 1.0"
    else if pi == 0x02
    then text "Serial Storage Bus"
    else text "-"

unfoldable pub usb_progif_name : ℕ → Named
usb_progif_name pi =
    if pi == 0x00
    then text "UHCI Controller"
    else if pi == 0x10
    then text "OHCI Controller"
    else if pi == 0x20
    then text "EHCI (USB2) Controller"
    else if pi == 0x30
    then text "XHCI (USB3) Controller"
    else if pi == 0x80
    then text "Unspecified"
    else if pi == 0xfe
    then text "USB Device (Not a Host Controller)"
    else text "-"

unfoldable pub get_progif_name : ℕ → ℕ → ℕ → Named
unfolding sata_progif_name usb_progif_name
get_progif_name c sc pi =
    if c == 0x01
    then if sc == 0x06 then sata_progif_name pi else text "-"
    else if c == 0x03
    then if sc == 0x00
      then if pi == 0x00
        then text "VGA Controller"
        else if pi == 0x01
        then text "8514-Compatible Controller"
        else text "-"
      else text "-"
    else if c == 0x0c
    then if sc == 0x03 then usb_progif_name pi else text "-"
    else text "-"

-- The last test of pci_get_classname.
unfoldable pub class_name : ℕ → Named
unfolding element
class_name c = if ltb c 0x40 then element device_class_names c else text "-"

abbrev pub ms_sata_pis : List String
ms_sata_pis =
    "SATA Controller [Vendor-specific]" ∷ "SATA Controller [AHCI]"
    ∷ "SATA Controller [Serial Storage Bus]" ∷ []

abbrev pub disp_vga_pis : List String
disp_vga_pis = "VGA Controller" ∷ "8514-compatible VGA" ∷ []

abbrev pub pis_usb : List String
pis_usb =
    "USB 1.0 (UHCI) Controller" ∷ "USB 1.0 (OHCI) Controller" ∷ "USB 2.0 Controller"
    ∷ "USB 3.0 Controller" ∷ []
