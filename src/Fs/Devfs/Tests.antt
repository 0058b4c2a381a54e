-- ===== src/Fs/Devfs/Tests.antt =====
-- The two devices that devfs_init makes, on a mount whose root has no files.
use limix.Base.{ℕ, ◌≡◌, refl, arith, none, some, List, [], ◌∷◌}
use limix.Fs.Vfs.{to_name}
use limix.Fs.Devfs.{
  Device, Root, done, panics, use_after_free, bind_outcome, Functions, devfs_create, devfs_init,
  devfs_reload, walk_is_freed, is_freed,
}
use limix.Fs.Devfs.Reload.{bound, devfs_reload-use_after_free}

abbrev functions : Functions
functions = record { devfs_read = 1; devfs_write = 2; zero_r = 3; zero_w = 4 }

abbrev null_device : Device
null_device = record {
  name = to_name (b'n' ∷ b'u' ∷ b'l' ∷ b'l' ∷ []);
  read = 3;
  write = 4;
  data_pointer = 0;
}

abbrev zero_device : Device
zero_device = record null_device { name = to_name (b'z' ∷ b'e' ∷ b'r' ∷ b'o' ∷ []) }

abbrev two_devices : List (ℕ × Device)
two_devices = (0x100, null_device) ∷ (0x200, zero_device) ∷ []

abbrev no_files : Root
no_files = record { file_count = 0; files = none }

makes_two :
    devfs_init functions 0x100 0x200 (bound (some no_files) [])
    ≡ done (bound (some no_files) two_devices)
unfolding devfs_init devfs_create walk_is_freed is_freed
makes_two = refl

devfs_reload-use_after_free_example :
    bind_outcome
      (devfs_reload functions no_files (bound (some no_files) two_devices))
      (devfs_reload functions no_files)
    ≡ use_after_free
devfs_reload-use_after_free_example =
    devfs_reload-use_after_free functions no_files no_files (some no_files) 0x100 null_device
      ((0x200, zero_device) ∷ []) refl (omega arith)

no_devices : devfs_reload functions no_files (bound (some no_files) []) ≡ panics
unfolding devfs_reload
no_devices = refl
