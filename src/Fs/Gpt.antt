-- ===== src/Fs/Gpt.antt =====
-- kernel/src/fs/gpt.c: the partitions that a storage is registered with. The two pages come from
-- the page allocator and are given here by their addresses; `transfer` is the driver.
pub mod Attached
pub mod Entries
mod Tests
use limix.Base.{
  ℕ, zero, suc, ◌+◌, ◌*◌, ◌/◌, ◌%◌, ◌^◌, Bool, true, false, not, ◌&&◌, ◌||◌, ◌==◌, if◌then◌else◌,
  Option, none, some,
}
use limix.Base.Run.{Run, ok, out_of_fuel}
use limix.Base.Run
use limix.Libk.Memory.{Mem, load, kmemset}
use limix.Libk.Strings.{kstrncmp}
use limix.Hw.Devman.{
  Outcome, done, panic, fault, ◌>>=◌, Partition, Devman, AccessHandle, Transfer, devman_read,
  devman_add_partition,
}

-- The driver's function: whether it read the sectors, and the memory it leaves.
abbrev pub DriverCall : Type 0
DriverCall = Transfer → Mem → Bool × Mem

-- devman_read, with the call of the driver made.
unfoldable pub read_sectors : DriverCall → AccessHandle → ℕ → ℕ → ℕ → Devman → Mem → Bool × Mem
read_sectors transfer ah sector count buffer d m = elim (devman_read ah sector count buffer d) [
  | none ↦ (false, m)
  | some t ↦ transfer t m
]

-- The fields of `GptHeader` by their places, and of its first MBR entry.
abbrev pub start_chs : ℕ → ℕ
start_chs gpt = gpt + 447

abbrev pub partition_type : ℕ → ℕ
partition_type gpt = gpt + 450

abbrev pub signature : ℕ → ℕ
signature gpt = gpt + 512

abbrev pub gp_array_lba : Mem → ℕ → ℕ
gp_array_lba m gpt = load 8 m (gpt + 512 + 72)

abbrev pub partition_entries : Mem → ℕ → ℕ
partition_entries m gpt = load 4 m (gpt + 512 + 80)

abbrev pub partition_entry_size : Mem → ℕ → ℕ
partition_entry_size m gpt = load 4 m (gpt + 512 + 84)

-- `sizeof(GptHeader)`: a sector and a header that is aligned to one.
abbrev pub gpt_header_size : ℕ
gpt_header_size = 0x400

-- The tests of the header; `text` is where "EFI PART" stands.
unfoldable pub check_header : ℕ → ℕ → Mem → ℕ → Outcome (Unit {0})
check_header fuel text m gpt =
    if not (m (start_chs gpt) == 0)
    then panic
    else if not (m (start_chs gpt + 1) == 0x02)
    then panic
    else if not (m (start_chs gpt + 2) == 0)
    then panic
    else if not (m (partition_type gpt) == 0xee)
    then panic
    else elim (kstrncmp fuel m (signature gpt) text 8) [
      | Run.ok true ↦ done tt
      | Run.ok false ↦ panic
      | Run.panic ↦ panic
      | Run.out_of_fuel ↦ fault
    ]

module _ (room : ℕ → ℕ) (fresh : Option Partition) (transfer : DriverCall) (ah : AccessHandle) where
  -- The body of the loop; a size of 0 or above a page divides by 0.
  unfoldable pub gpt_entry : ℕ → ℕ → ℕ → ℕ → Mem → Devman → Outcome (Mem × Devman)
  unfolding read_sectors
  gpt_entry lba size parts i m d =
      let per = 0x1000 / size in
      let m1 = (read_sectors transfer ah ((lba + i / per) % 2 ^ 64) 8 parts d m).1 in
      let part = parts + i % per * size in
      if size == 0 || per == 0
      then fault
      else if load 8 m1 part == 0 && load 8 m1 (part + 8) == 0
      then done (m1, d)
      else devman_add_partition room fresh ah (load 8 m1 (part + 32)) (load 8 m1 (part + 40)) i d
        >>= λ d1. done (m1, d1)

  -- With the rounds left; the header is in another page than the entries.
  unfoldable pub gpt_loop : ℕ → ℕ → ℕ → ℕ → ℕ → Mem → Devman → Outcome (Mem × Devman)
  unfolding gpt_entry
  gpt_loop zero i lba size parts m d = done (m, d)
  gpt_loop (suc left) i lba size parts m d =
      gpt_entry lba size parts i m d >>= λ s. gpt_loop left (i + 1) lba size parts (s.0) (s.1)

  unfoldable pub gpt_init : ℕ → ℕ → ℕ → ℕ → Mem → Devman → Outcome (Mem × Devman)
  unfolding check_header
  gpt_init fuel text gpt parts m d =
      let read =
        read_sectors transfer ah 0 (gpt_header_size / 512) gpt d
          (kmemset m gpt 0 gpt_header_size) in
      if not (read.0)
      then panic
      else check_header fuel text read.1 gpt >>= λ checked.
          gpt_loop (partition_entries read.1 gpt) 0 (gp_array_lba read.1 gpt)
            (partition_entry_size read.1 gpt) parts read.1 d
