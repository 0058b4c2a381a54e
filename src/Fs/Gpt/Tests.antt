-- ===== src/Fs/Gpt/Tests.antt =====
-- A disk whose array in sector 2 has two entries of 128 bytes, the second without a type.
use limix.Base.{
  ℕ, ◌+◌, ◌-◌, ◌*◌, ◌≡◌, refl, arith, true, ◌&&◌, ◌==◌, ltb, leb, if◌then◌else◌, none, some, List,
  [], ◌∷◌, Option,
}
use limix.Libk.Memory.{Mem, load, kmemset, fill_loop, store, store8}
use limix.Libk.Strings.{kstrncmp, strlen_loop, same_loop}
use limix.Hw.Devman.{
  done, ◌>>=◌, Storage, hdd, Devman, Partition, devman_add_partition, devman_get_storage,
}
use limix.Hw.Devman.Partitions.{whole}
use limix.Fs.Gpt.{DriverCall, check_header, gpt_init}
use limix.Fs.Gpt.Attached.{IsAttached}
use limix.Fs.Gpt.Entries.{
  Reads, add_entries, disk_lba, disk_entries, disk_entry_size, devices, header_read,
  gpt_init-add_entries,
}

abbrev bytes : List (ℕ × ℕ) → ℕ → ℕ
bytes [] a = 0
bytes ((p, v) ∷ m) a = if a == p then v else bytes m a

-- "EFI PART"
abbrev letters : ℕ → List (ℕ × ℕ) → List (ℕ × ℕ)
letters a m =
    (a, 0x45)
    ∷ (a + 1, 0x46)
    ∷ (a + 2, 0x49)
    ∷ (a + 3, 0x20)
    ∷ (a + 4, 0x50)
    ∷ (a + 5, 0x41)
    ∷ (a + 6, 0x52)
    ∷ (a + 7, 0x54)
    ∷ m

abbrev disk : Mem
disk = bytes (
    letters 512 (
      (448, 2)
      ∷ (450, 0xee)
      ∷ (584, 2)
      ∷ (592, 2)
      ∷ (596, 128)
      ∷ (1024, 7)
      ∷ (1056, 34)
      ∷ (1064, 99)
      ∷ []))

abbrev driver : DriverCall
driver t m = (
  true,
  λ a.
      if leb t.buffer a && ltb a (t.buffer + t.count * 512)
      then disk (t.sector * 512 + (a - t.buffer))
      else m a,
)

abbrev memory : Mem
memory = bytes (letters 0x8000 [])

abbrev storage : Storage
storage = record {
  type = hdd;
  number = 0;
  driver_data = 0x7000;
  read = 0x100;
  write = 0x200;
  check_attached = 0x300;
  partitions = none;
}

abbrev one_disk : Devman
one_disk = record {
  storage_pointers = some (some storage ∷ []);
  highest_storage = 1;
  pcie_drivers = [];
}

reads_disk : (room : ℕ → ℕ) (fresh : Option Partition) → Reads room fresh driver disk 0 0x100 0x7000
reads_disk room fresh sector count buffer o m l = (refl, ground (arith, l))

one_disk-IsAttached : IsAttached 0 0x100 0x7000 one_disk
unfolding devman_get_storage
one_disk-IsAttached = (storage, refl, refl, refl)

abbrev room : ℕ → ℕ
room n = n

header_passes :
    check_header 64 0x8000 (header_read room none driver disk 0 0x100 0x7000 0x4000 memory) 0x4000
    ≡ done tt
unfolding check_header kstrncmp strlen_loop same_loop kmemset fill_loop store store8
header_passes = refl

lba : disk_lba disk ≡ 2
unfolding load
lba = refl

entries : disk_entries disk ≡ 2
unfolding load
entries = refl

entry_size : disk_entry_size disk ≡ 128
unfolding load
entry_size = refl

gpt_init-add_entries_example :
    (gpt_init room none driver (whole 0) 64 0x8000 0x4000 0x6000 memory one_disk
      >>= devices room none driver disk 0 0x100 0x7000)
    ≡ add_entries room none driver disk 0 0x100 0x7000
        (disk_entries disk)
        0
        (disk_lba disk)
        (disk_entry_size disk)
        one_disk
gpt_init-add_entries_example =
    gpt_init-add_entries room none driver disk 0 0x100 0x7000 64 0x8000 0x4000 0x6000 memory
      one_disk (reads_disk room none) one_disk-IsAttached header_passes (omega (arith, entry_size))
      (rw (entries, entry_size) (omega arith)) (omega (arith, lba))

registers_the_first :
    add_entries room none driver disk 0 0x100 0x7000 2 0 2 128 one_disk
    ≡ done (record one_disk {
      storage_pointers = some (
          some (record storage {
            partitions = some (some (record { start = 34; end = 99; id = 0 }) ∷ []);
          })
          ∷ []);
    })
unfolding load devman_add_partition
registers_the_first = refl
