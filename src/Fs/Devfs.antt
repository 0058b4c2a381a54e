-- ===== src/Fs/Devfs.antt =====
-- kernel/src/fs/devfs.c: the list of devices, and the files of the mount that stand for them. A
-- pointer to a Device is a number, beside the device itself. Memory for files is at hand, but kmalloc
-- of 0 bytes gives none; there are fewer than 2 ^ 61 devices.
pub mod Reload
mod Tests
use limix.Base.{
  ℕ, zero, suc, ◌+◌, ◌%◌, ◌^◌, Bool, true, false, ◌||◌, ◌==◌, if◌then◌else◌, Option, none, some,
  List, [], ◌∷◌, ◌++◌, map,
}
use limix.Libk.Memory.{Mem, kmemset}
use limix.Fs.Vfs.{Name, File, to_name}

-- `Device`, with functions as numbers
pub record Device : Type 0 where
  pub name : Name
  pub read : ℕ
  pub write : ℕ
  pub data_pointer : ℕ

-- The root directory of the mount: `files` may be null.
pub record Root : Type 0 where
  pub file_count : ℕ
  pub files : Option (List File)

-- `_devfs` and its root, `_devices` along `next`, `_dev_count`, and the pointers that kfree got.
pub record Devfs : Type 0 where
  pub mount : Option (Option Root)
  pub devices : List (ℕ × Device)
  pub dev_count : ℕ
  pub freed : List ℕ

pub data Outcome : Type 0 where
  done : Devfs → Outcome
  panics : Outcome
  use_after_free : Outcome

unfoldable pub is_freed : ℕ → List ℕ → Bool
is_freed p [] = false
is_freed p (q ∷ qs) = p == q || is_freed p qs

-- Whether a walk along `next` reads a block that was freed.
unfoldable pub walk_is_freed : List ℕ → List (ℕ × Device) → Bool
unfolding is_freed
walk_is_freed freed [] = false
walk_is_freed freed ((p, d) ∷ ds) = is_freed p freed || walk_is_freed freed ds

-- `p` is what kmalloc returns.
unfoldable pub devfs_create : ℕ → List ℕ → ℕ → ℕ → ℕ → Devfs → Outcome
unfolding walk_is_freed
devfs_create p name read write data_pointer s =
    let device : Device = record {
      name = to_name name;
      read = read;
      write = write;
      data_pointer = data_pointer;
    } in
    if walk_is_freed s.freed s.devices
    then use_after_free
    else if p == 0
    then panics
    else done (record s {
      devices = s.devices ++ (p, device) ∷ [];
      dev_count = (s.dev_count + 1) % 2 ^ 64;
    })

-- The pointers to the two functions of this file that files get, and to the two of the devices that
-- it makes itself.
pub record Functions : Type 0 where
  pub devfs_read : ℕ
  pub devfs_write : ℕ
  pub zero_r : ℕ
  pub zero_w : ℕ

abbrev pub bind_outcome : Outcome → (Devfs → Outcome) → Outcome
bind_outcome (done s) next = next s
bind_outcome panics next = panics
bind_outcome use_after_free next = use_after_free

unfoldable pub devfs_init : Functions → ℕ → ℕ → Devfs → Outcome
unfolding devfs_create
devfs_init code p q s =
    bind_outcome (devfs_create p (b'n' ∷ b'u' ∷ b'l' ∷ b'l' ∷ []) code.zero_r code.zero_w 0 s)
      (devfs_create q (b'z' ∷ b'e' ∷ b'r' ∷ b'o' ∷ []) code.zero_r code.zero_w 0)

-- `_zero_r` and `_zero_w`
unfoldable pub zero_read : ℕ → ℕ → ℕ → ℕ → Mem → ℕ × Mem
zero_read p o s b m = (0, kmemset m b 0 s)

unfoldable pub zero_write : ℕ → ℕ → ℕ → ℕ → Mem → ℕ × Mem
zero_write p o s b m = (0, m)

-- The pointers that _devfs_clear_files frees; those of the files and of their array are not read
-- again.
unfoldable pub cleared : List File → List ℕ
cleared [] = []
cleared (f ∷ fs) =
    let rest = cleared fs in if f.data_pointer == 0 then rest else f.data_pointer ∷ rest

abbrev pub device_file : Functions → ℕ × Device → File
device_file code (p, d) = record {
  name = d.name;
  size = 0;
  read = code.devfs_read;
  write = code.devfs_write;
  data_pointer = p;
}

-- The files for the first `n` devices, and whether the list has as many.
unfoldable pub fill_files : Functions → ℕ → List (ℕ × Device) → List File
fill_files code zero ds = []
fill_files code (suc n) [] = []
fill_files code (suc n) (d ∷ ds) = device_file code d ∷ fill_files code n ds

unfoldable pub reads_freed : ℕ → List ℕ → List (ℕ × Device) → Bool
unfolding is_freed
reads_freed zero freed ds = false
reads_freed (suc n) freed [] = false
reads_freed (suc n) freed ((p, d) ∷ ds) = is_freed p freed || reads_freed n freed ds

-- `fresh` is what the block for a new root holds.
abbrev pub root_for_reload : Root → Option Root → Root
root_for_reload fresh none = fresh
root_for_reload fresh (some r) = r

unfoldable pub freed_files : Root → List ℕ
unfolding cleared
freed_files r = elim r.files [ none ↦ [] | some fs ↦ cleared fs ]

unfoldable pub devfs_reload : Functions → Root → Devfs → Outcome
unfolding freed_files fill_files reads_freed
devfs_reload code fresh s = elim s.mount [
  | none ↦ done s
  | some root ↦
      let freed = freed_files (root_for_reload fresh root) ++ s.freed in
      let files = fill_files code s.dev_count s.devices in
      if s.dev_count == 0
      then panics
      else if reads_freed s.dev_count freed s.devices
      then use_after_free
      else done (record s {
        mount = some (some (record { file_count = s.dev_count; files = some files }));
        freed = freed;
      })
]

unfoldable pub devfs_bind : Option Root → Devfs → Devfs
devfs_bind root s = record s { mount = some root }

-- _devfs_read and _devfs_write, for what a call of a function does: the device's own function on the
-- device's data.
module _ (call : ℕ → ℕ → ℕ → ℕ → ℕ → Mem → ℕ × Mem) (device_at : ℕ → Device) where
  unfoldable pub devfs_read : ℕ → ℕ → ℕ → File → Mem → ℕ × Mem
  devfs_read o s b f = let d = device_at f.data_pointer in call d.read d.data_pointer o s b

  unfoldable pub devfs_write : ℕ → ℕ → ℕ → File → Mem → ℕ × Mem
  devfs_write o s b f = let d = device_at f.data_pointer in call d.write d.data_pointer o s b
