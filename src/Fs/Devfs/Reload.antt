-- ===== src/Fs/Devfs/Reload.antt =====
-- The files after a reload, and after a second one.
use limix.Base.{
  ℕ, zero, suc, ◌≡◌, ◌≢◌, ◌<◌, refl, ap, arith, true, false, ◌==◌, if◌then◌else◌, Option, none,
  some, List, [], ◌∷◌, map, length,
}
use limix.Fs.Vfs.{File, is_named}
use limix.Fs.Devfs.{
  Device, Root, Devfs, done, use_after_free, bind_outcome, is_freed, cleared, Functions,
  device_file, fill_files, reads_freed, root_for_reload, freed_files, devfs_reload,
}

-- The first device of that name, with its pointer.
unfoldable pub device_named : List ℕ → List (ℕ × Device) → Option (ℕ × Device)
device_named name [] = none
device_named name ((p, d) ∷ ds) =
    let rest = device_named name ds in if is_named name d.name then some (p, d) else rest

abbrev pub file_for : Functions → Option (ℕ × Device) → Option File
file_for code none = none
file_for code (some d) = some (device_file code d)

fill_files-map :
    (code : Functions) (ds : List (ℕ × Device))
    → fill_files code (length ds) ds ≡ map (device_file code) ds
unfolding fill_files
fill_files-map code [] = refl
fill_files-map code (d ∷ ds) = ap (λ fs. device_file code d ∷ fs) (fill_files-map code ds)

no_freed_read : (n : ℕ) (ds : List (ℕ × Device)) → reads_freed n [] ds ≡ false
unfolding reads_freed is_freed
no_freed_read zero ds = refl
no_freed_read (suc n) [] = refl
no_freed_read (suc n) ((p, d) ∷ ds) = no_freed_read n ds

-- The file system with its mount bound and nothing freed so far.
abbrev pub bound : Option Root → List (ℕ × Device) → Devfs
bound root ds = record { mount = some root; devices = ds; dev_count = length ds; freed = [] }

abbrev pub with_files : List File → List (ℕ × Device) → Devfs
with_files fs ds = bound (some (record { file_count = length ds; files = some fs })) ds

module _ (code : Functions) (fresh : Root) (root : Option Root) (ds : List (ℕ × Device))
    (empty : (root_for_reload fresh root).files ≡ none) (some_device : 0 < length ds) where
  nothing_freed : freed_files (root_for_reload fresh root) ≡ []
  unfolding freed_files
  nothing_freed = rw (freed_files, empty) refl

  first_reload :
      devfs_reload code fresh (bound root ds) ≡ done (with_files (map (device_file code) ds) ds)
  unfolding devfs_reload
  first_reload =
      let e : (length ds == 0) ≡ false = ground (arith, some_device) in
      rw (devfs_reload, e, nothing_freed, no_freed_read (length ds) ds, fill_files-map code ds) refl

-- Where there is a device, at a pointer that is not null, a second reload reads the first device
-- after it has freed it.
pub devfs_reload-use_after_free :
    (code : Functions) (fresh again : Root) (root : Option Root) (p : ℕ) (d : Device)
    (ds : List (ℕ × Device))
    → (root_for_reload fresh root).files ≡ none
    → p ≢ 0
    → bind_outcome (devfs_reload code fresh (bound root ((p, d) ∷ ds))) (devfs_reload code again)
      ≡ use_after_free
unfolding devfs_reload freed_files cleared reads_freed is_freed
devfs_reload-use_after_free code fresh again root p d ds empty nz =
    let e : (p == 0) ≡ false = ground (arith, nz) in
    let t : (p == p) ≡ true = ground arith in
    let z : (length ((p, d) ∷ ds) == 0) ≡ false = ground arith in
    rw (first_reload code fresh root ((p, d) ∷ ds) empty (omega arith), z, e, t) refl
