-- ===== src/Fs/Gpt/Entries.antt =====
-- The partitions that the loop registers, against the array of entries on the disk.
use limix.Base.{
  ℕ, zero, suc, ◌+◌, ◌*◌, ◌/◌, ◌%◌, ◌^◌, ◌<◌, ◌≤◌, ◌≡◌, refl, sym, ap, ◌∙◌, arith, Bool, true,
  false, ◌&&◌, ◌==◌, if◌then◌else◌, Option, Bool-cases, inl, inr,
}
use mathlib.Core.Path.{subst}
use limix.Libk.Memory.{Mem, load, kmemset}
use limix.Hw.Devman.{
  Outcome, done, panic, fault, ◌>>=◌, Partition, Devman, Transfer, devman_get_partition,
  devman_read, devman_add_partition,
}
use limix.Hw.Devman.Partitions.{whole}
use limix.Fs.Gpt.{
  DriverCall, read_sectors, gpt_header_size, check_header, gpt_entry, gpt_loop, gpt_init,
}
use limix.Fs.Gpt.Attached.{IsAttached, add-IsAttached}

index_in_page : (i size : ℕ) → 0 < size → (i + 1) * size ≤ 0x1000 → i < 0x1000 / size
index_in_page i size p h = grind arith

load-same :
    (w : ℕ) (m disk : Mem) (a b : ℕ)
    → ((o : ℕ) → o < w → m (a + o) ≡ disk (b + o))
    → load w m a ≡ load w disk b
unfolding load
load-same zero m disk a b h = refl
load-same (suc w) m disk a b h = omega (arith, first, load-same w m disk (a + 1) (b + 1) rest)
  where
    first : m a ≡ disk b
    first =
        let p : a ≡ a + 0 = omega arith in
        let q : b ≡ b + 0 = omega arith in ap m p ∙ h 0 (omega arith) ∙ ap disk (sym q)

    rest : (o : ℕ) → o < w → m (a + 1 + o) ≡ disk (b + 1 + o)
    rest o l =
        let p : a + 1 + o ≡ a + (o + 1) = omega arith in
        let q : b + 1 + o ≡ b + (o + 1) = omega arith in rw (p, q) (h (o + 1) (omega arith))

-- The fields of the header on a disk.
abbrev pub disk_lba : Mem → ℕ
disk_lba disk = load 8 disk (512 + 72)

abbrev pub disk_entries : Mem → ℕ
disk_entries disk = load 4 disk (512 + 80)

abbrev pub disk_entry_size : Mem → ℕ
disk_entry_size disk = load 4 disk (512 + 84)

module _ (room : ℕ → ℕ) (fresh : Option Partition) (transfer : DriverCall) (disk : Mem)
    (d function driver_data : ℕ) where
  abbrev pub asked_for : ℕ → ℕ → ℕ → Transfer
  asked_for sector count buffer = record {
    function = function;
    driver_data = driver_data;
    sector = sector;
    count = count;
    buffer = buffer;
  }

  -- The function of the driver reads sectors of the disk.
  abbrev pub Reads : Type 0
  Reads =
      (sector count buffer o : ℕ) (m : Mem)
      → o < count * 512
      → ((transfer (asked_for sector count buffer) m).0 ≡ true)
        × ((transfer (asked_for sector count buffer) m).1 (buffer + o) ≡ disk (sector * 512 + o))

  -- Entry `i` of the array that starts in sector `lba` of the disk is registered unless its type is
  -- zero.
  abbrev pub add_entry : ℕ → ℕ → ℕ → Devman → Outcome Devman
  add_entry lba size i m =
      let place = lba * 512 + i * size in
      if load 8 disk place == 0 && load 8 disk (place + 8) == 0
      then done m
      else devman_add_partition room fresh (whole d) (load 8 disk (place + 32))
          (load 8 disk (place + 40)) i m

  abbrev pub add_entries : ℕ → ℕ → ℕ → ℕ → Devman → Outcome Devman
  add_entries zero i lba size m = done m
  add_entries (suc left) i lba size m = add_entry lba size i m >>= add_entries left (i + 1) lba size

  abbrev after_read : ℕ → ℕ → Mem → Mem
  after_read lba parts m = (transfer (asked_for lba 8 parts) m).1

  abbrev with_memory : ℕ → ℕ → Mem → Devman → Outcome (Mem × Devman)
  with_memory lba parts m n = done (after_read lba parts m, n)

  read_sectors-IsAttached :
      (sector count buffer : ℕ) (m : Mem) (n : Devman)
      → IsAttached d function driver_data n
      → read_sectors transfer (whole d) sector count buffer n m
        ≡ transfer (asked_for sector count buffer) m
  unfolding read_sectors devman_read devman_get_partition
  read_sectors-IsAttached sector count buffer m n (s, found, r, dd) = ground (arith, found, r, dd)

  module _ (reads : Reads) (lba size i parts : ℕ) (m : Mem) (wide : 48 ≤ size)
      (within : (i + 1) * size ≤ 0x1000) where
    word :
        (k : ℕ)
        → k + 8 ≤ 48
        → load 8 (after_read lba parts m) (parts + i * size + k)
          ≡ load 8 disk (lba * 512 + i * size + k)
    word k small =
        load-same 8 (after_read lba parts m) disk (parts + i * size + k) (lba * 512 + i * size + k)
          λ o l.
            let p : parts + i * size + k + o ≡ parts + (i * size + k + o) = omega arith in
            let q : lba * 512 + i * size + k + o ≡ lba * 512 + (i * size + k + o) = omega arith in
            rw (p, q) ((reads lba 8 parts (i * size + k + o) m (grind arith)).1)

    type_low :
        load 8 (after_read lba parts m) (parts + i * size) ≡ load 8 disk (lba * 512 + i * size)
    type_low =
        let p : parts + i * size ≡ parts + i * size + 0 = omega arith in
        let q : lba * 512 + i * size + 0 ≡ lba * 512 + i * size = omega arith in
        ap (load 8 (after_read lba parts m)) p ∙ word 0 (omega arith) ∙ ap (load 8 disk) q

    abbrev added_entry : Devman → Outcome Devman
    added_entry n =
        devman_add_partition room fresh (whole d) (load 8 disk (lba * 512 + i * size + 32))
          (load 8 disk (lba * 512 + i * size + 40)) i n

    gpt_entry-add_entry :
        (n : Devman)
        → IsAttached d function driver_data n
        → lba < 2 ^ 64
        → gpt_entry room fresh transfer (whole d) lba size parts i m n
          ≡ (add_entry lba size i n >>= with_memory lba parts m)
    unfolding gpt_entry
    gpt_entry-add_entry n attached small =
        let below = index_in_page i size (omega arith) within in
        let quotient : i / (0x1000 / size) ≡ 0 = grind arith in
        let remainder : i % (0x1000 / size) ≡ i = grind arith in
        let nonempty : (size == 0) ≡ false = ground arith in
        let some_fit : (0x1000 / size == 0) ≡ false = ground arith in
        let sector : (lba + 0) % 2 ^ 64 ≡ lba = omega arith in
        rw (quotient, remainder, sector, read_sectors-IsAttached lba 8 parts m n attached)
          (rw
            (
              nonempty,
              some_fit,
              type_low,
              word 8 (omega arith),
              word 32 (omega arith),
              word 40 (omega arith),
            )
            (branch (
              load 8 disk (lba * 512 + i * size) == 0
              && load 8 disk (lba * 512 + i * size + 8) == 0)))
      where
        branch :
            (skipped : Bool)
            → (if skipped
                then with_memory lba parts m n
                else (added_entry n >>= with_memory lba parts m))
              ≡ ((if skipped then done n else added_entry n) >>= with_memory lba parts m)
        branch true = refl
        branch false = refl

  add_entry-IsAttached :
      (lba size i : ℕ) (n n1 : Devman)
      → IsAttached d function driver_data n
      → add_entry lba size i n ≡ done n1
      → IsAttached d function driver_data n1
  add_entry-IsAttached lba size i n n1 a h =
      elim (Bool-cases
        (load 8 disk (lba * 512 + i * size) == 0 && load 8 disk (lba * 512 + i * size + 8) == 0)) [
          | inl e ↦
              let same : n ≡ n1 = ground (arith, e, h) in
              subst (IsAttached d function driver_data) same a
          | inr e ↦
              add-IsAttached room fresh d (load 8 disk (lba * 512 + i * size + 32))
                (load 8 disk (lba * 512 + i * size + 40)) i function driver_data n n1 a
                (ground (arith, e, h))
        ]

  abbrev pub devices : Mem × Devman → Outcome Devman
  devices s = done (s.1)

  next_rounds :
      (o : Outcome Devman) (rest : Mem → Devman → Outcome (Mem × Devman))
      (spec : Devman → Outcome Devman) (lba parts : ℕ) (m : Mem)
      → ((n1 : Devman) → o ≡ done n1 → IsAttached d function driver_data n1)
      → ((n1 : Devman)
          → IsAttached d function driver_data n1
          → (rest (after_read lba parts m) n1 >>= devices) ≡ spec n1)
      → (((o >>= with_memory lba parts m) >>= λ s. rest (s.0) (s.1)) >>= devices) ≡ (o >>= spec)
  next_rounds (done n1) rest spec lba parts m still same = same n1 (still n1 refl)
  next_rounds panic rest spec lba parts m still same = refl
  next_rounds fault rest spec lba parts m still same = refl

  -- Where the driver reads the disk, entries have at least 48 bytes and all of them fit in a page: the
  -- loop of gpt_init does to the device manager what calls of devman_add_partition do for the entries
  -- of the array whose type is not zero, in their order.
  pub gpt_loop-add_entries :
      (left i lba size parts : ℕ) (m : Mem) (n : Devman)
      → Reads
      → IsAttached d function driver_data n
      → 48 ≤ size
      → (i + left) * size ≤ 0x1000
      → lba < 2 ^ 64
      → (gpt_loop room fresh transfer (whole d) left i lba size parts m n >>= devices)
        ≡ add_entries left i lba size n
  unfolding gpt_loop
  gpt_loop-add_entries zero i lba size parts m n reads a wide within small = refl
  gpt_loop-add_entries (suc left) i lba size parts m n reads a wide within small =
      rw (gpt_entry-add_entry reads lba size i parts m wide (grind arith) n a small) (
        next_rounds (add_entry lba size i n)
          (gpt_loop room fresh transfer (whole d) left (i + 1) lba size parts)
          (add_entries left (i + 1) lba size) lba parts m
          (λ n1 e. add_entry-IsAttached lba size i n n1 a e)
          (λ n1 still.
            gpt_loop-add_entries left (i + 1) lba size parts (after_read lba parts m) n1 reads still
              wide (grind arith) small))

  -- The memory with the header, as the tests of it find it.
  abbrev pub header_read : ℕ → Mem → Mem
  header_read gpt m = (transfer (asked_for 0 2 gpt) (kmemset m gpt 0 gpt_header_size)).1

  header_field :
      (reads : Reads) (gpt w k : ℕ) (m : Mem)
      → k + w ≤ 512
      → load w (header_read gpt m) (gpt + 512 + k) ≡ load w disk (512 + k)
  header_field reads gpt w k m small =
      load-same w (header_read gpt m) disk (gpt + 512 + k) (512 + k) λ o l.
        let p : gpt + 512 + k + o ≡ gpt + (512 + k + o) = omega arith in
        let q : 0 * 512 + (512 + k + o) ≡ 512 + k + o = omega arith in
        rw p (
          (reads 0 2 gpt (512 + k + o) (kmemset m gpt 0 gpt_header_size) (omega arith)).1
          ∙ ap disk q)

  -- Where the driver reads the disk, the header passes the tests, its entries have at least 48 bytes
  -- and all of them fit in a page: gpt_init does to the device manager what calls of
  -- devman_add_partition do for the entries of its array whose type is not zero, one after the other
  -- in their order. It leaves the same tables as these calls, and faults exactly where they do, as
  -- for a table without room for one partition more.
  pub gpt_init-add_entries :
      (fuel text gpt parts : ℕ) (m : Mem) (n : Devman)
      → Reads
      → IsAttached d function driver_data n
      → check_header fuel text (header_read gpt m) gpt ≡ done tt
      → 48 ≤ disk_entry_size disk
      → disk_entries disk * disk_entry_size disk ≤ 0x1000
      → disk_lba disk < 2 ^ 64
      → (gpt_init room fresh transfer (whole d) fuel text gpt parts m n >>= devices)
        ≡ add_entries (disk_entries disk) 0 (disk_lba disk) (disk_entry_size disk) n
  unfolding gpt_init
  gpt_init-add_entries fuel text gpt parts m n reads a checked wide within small =
      rw
        (
          read_sectors-IsAttached 0 2 gpt (kmemset m gpt 0 gpt_header_size) n a,
          (reads 0 2 gpt 0 (kmemset m gpt 0 gpt_header_size) (omega arith)).0,
          checked,
        )
        (rw
          (
            header_field reads gpt 4 80 m (omega arith),
            header_field reads gpt 8 72 m (omega arith),
            header_field reads gpt 4 84 m (omega arith),
          )
          (gpt_loop-add_entries (disk_entries disk) 0 (disk_lba disk) (disk_entry_size disk) parts
            (header_read gpt m) n reads a wide (grind arith) small))
