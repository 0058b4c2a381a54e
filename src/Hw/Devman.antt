-- ===== src/Hw/Devman.antt =====
-- kernel/src/hw/devman/devman.c: drivers, storage devices and their partitions. An array of pointers
-- is a list of slots, a null pointer an empty slot. Functions of drivers are their addresses; what
-- they return is an argument. `room` is how many bytes a block of kmalloc holds for a size.
pub mod Drivers
pub mod Tables
pub mod Partitions
mod Tests
use limix.Base.{
  ℕ, ◌+◌, ◌-◌, ◌*◌, ◌%◌, ◌^◌, Bool, true, false, not, ◌&&◌, ◌==◌, ltb, leb, if◌then◌else◌, Option,
  none, some, List, [], ◌∷◌, ◌++◌, length,
}

-- The end of a call, kernel_panic_error, or a null pointer or a place past a block that is accessed.
pub data Outcome {ℓ} (A : Type ℓ) : Type ℓ where
  done : A → Outcome A
  panic : Outcome A
  fault : Outcome A

infixl 5 ◌>>=◌
abbrev pub ◌>>=◌ {ℓ κ} : {A : Type ℓ} {B : Type κ} → Outcome A → (A → Outcome B) → Outcome B
done a >>= f = f a
panic >>= f = panic
fault >>= f = fault

-- The fields of `PciHeader` that choose a driver.
pub record PciType0 : Type 0 where
  pub vendor_id : ℕ
  pub device_id : ℕ
  pub class_code : ℕ
  pub subclass : ℕ
  pub prog_if : ℕ

-- `enum PcieDriverAddressTypeEnum`
pub data AddressType : Type 0 where
  vendor vendor_device class class_subclass class_subclass_prog_if : AddressType

-- `PcieDriverHandle`, without the link
pub record Driver : Type 0 where
  pub address_type : AddressType
  pub address0 : ℕ
  pub address1 : ℕ
  pub address2 : ℕ
  pub init : ℕ

-- The conditions of the switch.
unfoldable pub matches : Driver → PciType0 → Bool
matches d h = elim d.address_type [
  | vendor ↦ d.address0 == h.vendor_id
  | vendor_device ↦ d.address0 == h.vendor_id && d.address1 == h.device_id
  | class ↦ d.address0 == h.class_code
  | class_subclass ↦ d.address0 == h.class_code && d.address1 == h.subclass
  | class_subclass_prog_if ↦
      d.address0 == h.class_code && d.address1 == h.subclass && d.address2 == h.prog_if
]

-- The inits that are called in turn, and whether one took the device; `accepts` is what they return.
unfoldable pub devman_handle_pcie_device : (ℕ → Bool) → PciType0 → List Driver → List ℕ × Bool
devman_handle_pcie_device accepts h [] = ([], false)
devman_handle_pcie_device accepts h (d ∷ ds) =
    let rest = devman_handle_pcie_device accepts h ds in
    if matches d h
    then (if accepts d.init then (d.init ∷ [], true) else (d.init ∷ rest.0, rest.1))
    else rest

-- `DevmanStoragePartition`
pub record Partition : Type 0 where
  pub start : ℕ
  pub end : ℕ
  pub id : ℕ

-- `DevmanStorageType`
pub data StorageType : Type 0 where
  hdd cd : StorageType

-- `DevmanStorage`; partition_count is the number of slots.
pub record Storage : Type 0 where
  pub type : StorageType
  pub number : ℕ
  pub driver_data : ℕ
  pub read : ℕ
  pub write : ℕ
  pub check_attached : ℕ
  pub partitions : Option (List (Option Partition))

-- The static variables; `storages` is the number of slots.
pub record Devman : Type 0 where
  pub storage_pointers : Option (List (Option Storage))
  pub highest_storage : ℕ
  pub pcie_drivers : List Driver

-- `DevmanStorageAccessHandle`
pub record AccessHandle : Type 0 where
  pub storage_index : ℕ
  pub partition_index : ℕ

unfoldable pub devman_init : Devman → Devman
devman_init m = record m { storage_pointers = none; highest_storage = 0 }

unfoldable pub devman_register_driver : Driver → Devman → Devman
devman_register_driver d m = record m { pcie_drivers = d ∷ m.pcie_drivers }

-- The loop that looks for an empty slot; `none` if there is none.
unfoldable pub fill_slot {ℓ} : {A : Type ℓ} → A → List (Option A) → Option (List (Option A))
fill_slot a [] = none
fill_slot a (none ∷ xs) = some (some a ∷ xs)
fill_slot a (some x ∷ xs) = elim (fill_slot a xs) [ none ↦ none | some ys ↦ some (some x ∷ ys) ]

-- krealloc takes the new size first and gets the old one, so the new block is as long as the old.
unfoldable pub place_slot {ℓ} :
    {A : Type ℓ} → (ℕ → ℕ) → A → List (Option A) → Outcome (List (Option A))
place_slot room a xs = elim (fill_slot a xs) [
  | some ys ↦ done ys
  | none ↦
      if leb ((length xs + 1) * 8) (room (length xs * 8)) then done (xs ++ some a ∷ []) else fault
]

-- The first storage with the number, and the change of it.
unfoldable pub find_storage : ℕ → List (Option Storage) → Option Storage
find_storage drive [] = none
find_storage drive (none ∷ xs) = find_storage drive xs
find_storage drive (some s ∷ xs) =
    let rest = find_storage drive xs in if s.number == drive then some s else rest

unfoldable pub replace_storage : ℕ → Storage → List (Option Storage) → List (Option Storage)
replace_storage drive t [] = []
replace_storage drive t (none ∷ xs) = none ∷ replace_storage drive t xs
replace_storage drive t (some s ∷ xs) =
    let rest = replace_storage drive t xs in
    if s.number == drive then some t ∷ xs else some s ∷ rest

unfoldable pub devman_get_storage : ℕ → Devman → Option Storage
unfolding find_storage
devman_get_storage drive m = elim m.storage_pointers [
  | none ↦ none
  | some xs ↦ find_storage drive xs
]

unfoldable pub find_partition : ℕ → List (Option Partition) → Option Partition
find_partition id [] = none
find_partition id (none ∷ xs) = find_partition id xs
find_partition id (some p ∷ xs) =
    let rest = find_partition id xs in if p.id == id then some p else rest

abbrev pub no_partition : Partition
no_partition = record { start = 0; end = 0; id = 0 }

unfoldable pub devman_get_partition : ℕ → ℕ → Devman → Partition
unfolding find_partition devman_get_storage
devman_get_partition drive id m =
    if id == 0
    then record { start = 0; end = 2 ^ 64 - 1; id = 0 }
    else if not (ltb drive m.highest_storage)
    then no_partition
    else elim (devman_get_storage drive m) [
      | none ↦ no_partition
      | some s ↦ elim s.partitions [
        | none ↦ no_partition
        | some ps ↦ elim (find_partition id ps) [ none ↦ no_partition | some p ↦ p ]
      ]
    ]

-- The handle is what gpt_init is called with at the end. The first array is one empty slot.
unfoldable pub devman_add_storage :
    (ℕ → ℕ) → StorageType → ℕ → ℕ → ℕ → ℕ → Devman → Outcome (Devman × AccessHandle)
unfolding place_slot fill_slot
devman_add_storage room type driver_data read write check_attached m =
    let xs : List (Option Storage) = elim m.storage_pointers [ none ↦ none ∷ [] | some xs ↦ xs ] in
    let s : Storage = record {
      type = type;
      number = m.highest_storage;
      driver_data = driver_data;
      read = read;
      write = write;
      check_attached = check_attached;
      partitions = none;
    } in
    place_slot room s xs >>= λ ys. done (
      record m { storage_pointers = some ys; highest_storage = (m.highest_storage + 1) % 2 ^ 64 },
      record { storage_index = m.highest_storage; partition_index = 0 },
    )

-- The slots of a storage. `fresh` is what the first slot of a new array holds, since kmalloc does
-- not clear it.
abbrev pub partition_slots : Option Partition → Storage → List (Option Partition)
partition_slots fresh s = elim s.partitions [ none ↦ fresh ∷ [] | some ps ↦ ps ]

unfoldable pub devman_add_partition :
    (ℕ → ℕ) → Option Partition → AccessHandle → ℕ → ℕ → ℕ → Devman → Outcome Devman
unfolding place_slot fill_slot devman_get_storage replace_storage
devman_add_partition room fresh handle start end id m =
    let p : Partition = record { start = start; end = end; id = id } in
    if not (handle.partition_index == 0) then panic else elim m.storage_pointers [
      | none ↦ fault
      | some xs ↦ elim (find_storage handle.storage_index xs) [
        | none ↦ fault
        | some s ↦ place_slot room p (partition_slots fresh s) >>= λ ps. done (record m {
          storage_pointers =
              some (replace_storage handle.storage_index (record s { partitions = some ps }) xs);
        })
      ]
    ]

-- The call of a function of the driver, with its arguments.
pub record Transfer : Type 0 where
  pub function : ℕ
  pub driver_data : ℕ
  pub sector : ℕ
  pub count : ℕ
  pub buffer : ℕ

-- `none` returns false; otherwise the result is that of the call.
unfoldable pub devman_read : AccessHandle → ℕ → ℕ → ℕ → Devman → Option Transfer
unfolding devman_get_storage devman_get_partition
devman_read handle sector count buffer m = elim (devman_get_storage handle.storage_index m) [
  | none ↦ none
  | some s ↦
      let p = devman_get_partition handle.storage_index handle.partition_index m in
      if p.end == 0
      then none
      else some record {
        function = s.read;
        driver_data = s.driver_data;
        sector = sector;
        count = count;
        buffer = buffer;
      }
]

unfoldable pub devman_write : AccessHandle → ℕ → ℕ → ℕ → Devman → Option Transfer
unfolding devman_get_storage devman_get_partition
devman_write handle sector count buffer m = elim (devman_get_storage handle.storage_index m) [
  | none ↦ none
  | some s ↦
      let p = devman_get_partition handle.storage_index handle.partition_index m in
      if p.end == 0
      then none
      else some record {
        function = s.write;
        driver_data = s.driver_data;
        sector = sector;
        count = count;
        buffer = buffer;
      }
]
