-- ===== src/Hw/Devman/Tests.antt =====
-- The theorems on devices with tables whose blocks are multiples of 16 bytes, as kmalloc gives them.
use limix.Base.{ℕ, ◌+◌, ◌*◌, ◌/◌, ◌≢◌, ◌≡◌, refl, arith, Option, none, some, List, [], ◌∷◌}
use limix.Hw.Devman.{
  done, Partition, Storage, hdd, Devman, AccessHandle, devman_get_storage, devman_get_partition,
  devman_add_storage, devman_add_partition, find_partition,
}
use limix.Hw.Devman.{PciType0, Driver, class, class_subclass, vendor}
use limix.Hw.Devman.Tables.{nil, cons, Numbered, new_storage, devman_add_storage-get}
use limix.Hw.Devman.Partitions.{whole, devman_add_partition-get}

abbrev room : ℕ → ℕ
room n = (n + 15) / 16 * 16

abbrev first : Partition
first = record { start = 34; end = 2047; id = 1 }

abbrev second : Partition
second = record { start = 2048; end = 4095; id = 2 }

abbrev disk : Option (List (Option Partition)) → Storage
disk ps = record {
  type = hdd;
  number = 0;
  driver_data = 0x7000;
  read = 0x100;
  write = 0x200;
  check_attached = 0x300;
  partitions = ps;
}

abbrev with_disk : Storage → Devman
with_disk s = record {
  storage_pointers = some (some s ∷ []);
  highest_storage = 1;
  pcie_drivers = [];
}

devman_add_storage-get_example :
    (m' : Devman) × (h : AccessHandle) × (devman_add_storage room hdd 5 6 7 8
        (with_disk (disk none))
      ≡ done (m', h))
    × (devman_get_storage h.storage_index m'
        ≡ some (new_storage hdd 5 6 7 8 (with_disk (disk none))))
    × ((d : ℕ)
        → d ≢ h.storage_index
        → devman_get_storage d m' ≡ devman_get_storage d (with_disk (disk none)))
    × Numbered m'
devman_add_storage-get_example =
    devman_add_storage-get room hdd 5 6 7 8 (with_disk (disk none))
      (cons (disk none) [] (omega arith) nil) (omega arith) (omega arith)

devman_add_partition-get_example :
    (m' : Devman) × (devman_add_partition room none
        (whole 0)
        2048
        4095
        2
        (with_disk (disk (some (some first ∷ []))))
      ≡ done m')
    × (devman_get_partition 0 2 m' ≡ record { start = 2048; end = 4095; id = 2 })
unfolding find_partition devman_get_storage
devman_add_partition-get_example =
    devman_add_partition-get room none 0 2048 4095 2 (disk (some (some first ∷ [])))
      (with_disk (disk (some (some first ∷ [])))) refl (omega arith) (omega arith) refl
      (omega arith)

abbrev card : PciType0
card = record { vendor_id = 0x8086; device_id = 0x2922; class_code = 1; subclass = 6; prog_if = 1 }

abbrev drivers : List Driver
drivers =
    record { address_type = class; address0 = 2; address1 = 0; address2 = 0; init = 0x10 }
    ∷ record {
      address_type = class_subclass;
      address0 = 1;
      address1 = 6;
      address2 = 0;
      init = 0x20;
    }
    ∷ record { address_type = vendor; address0 = 0x8086; address1 = 0; address2 = 0; init = 0x30 }
    ∷ []
