-- ===== src/Fs/Vfs.antt =====
-- kernel/src/fs/vfs.c: the mounted file systems and the search for a path. Strings are their bytes;
-- Libk/Strings shows what kstrlen, kstrnext and kstrncmp make of those. Memory for names and mounts
-- is at hand, and the counts of a directory are the lengths of its arrays.
pub mod Spec
pub mod Mount
pub mod Paths
pub mod Search
pub mod Find
mod Tests
use limix.Base.{
  ℕ, zero, suc, ◌+◌, ◌%◌, ◌^◌, Bool, true, false, ◌&&◌, ◌==◌, ltb, leb, not, if◌then◌else◌, Option,
  none, some, List, [], ◌∷◌, ◌++◌, length, take, drop,
}
use limix.Libk.Strings.{min}
use limix.Libk.Strings.Text.{position}
use limix.Libk.Strings.Equal.{agree}

-- `xstr_t`, with the bytes of the string behind `cstr`
pub record Name : Type 0 where
  pub length : ℕ
  pub cstr : List ℕ

-- The callbacks of a file are numbers.
pub record File : Type 0 where
  pub name : Name
  pub size : ℕ
  pub read : ℕ
  pub write : ℕ
  pub data_pointer : ℕ

infixr 20 ◌▹◌
mutual
  pub data Directory : Type 0 where
    directory : Name → Directories → List File → Directory

  -- The array `directories`.
  pub data Directories : Type 0 where
    no_more : Directories
    ◌▹◌ : Directory → Directories → Directories

pub record Vfs : Type 0 where
  pub name : Name
  pub root : Option Directory

-- `_filesystems` along `next`, and `_fs_count`
pub record Mounts : Type 0 where
  pub filesystems : List Vfs
  pub fs_count : ℕ

-- Only the count is reset.
unfoldable pub vfs_init : Mounts → Mounts
vfs_init s = record s { fs_count = 0 }

abbrev pub to_name : List ℕ → Name
to_name bytes = record { length = length bytes; cstr = bytes }

-- `root` and `next` are what the block that kmalloc returns holds.
unfoldable pub vfs_make : Option Directory → List Vfs → List ℕ → Mounts → Mounts
vfs_make root next name s = record {
  filesystems = s.filesystems ++ record { name = to_name name; root = root } ∷ next;
  fs_count = (s.fs_count + 1) % 2 ^ 64;
}

unfoldable pub vfs_fs_loop : List ℕ → List Vfs → Option Vfs
vfs_fs_loop name [] = none
vfs_fs_loop name (c ∷ cs) =
    let rest = vfs_fs_loop name cs in
    let text = c.name.cstr in
    if length name == c.name.length && agree (min (length text) (length name)) text name
    then some c
    else rest

unfoldable pub vfs_fs : List ℕ → Mounts → Option Vfs
unfolding vfs_fs_loop
vfs_fs name s = vfs_fs_loop name s.filesystems

-- The two tests of the loops over a directory.
abbrev pub is_named : List ℕ → Name → Bool
is_named name n = length n.cstr == length name && agree (length name) n.cstr name

-- The directory that is found, and its index.
unfoldable pub search_directories : ℕ → List ℕ → Directories → Option (ℕ × Directory)
search_directories i name no_more = none
search_directories i name (directory n ds fs ▹ more) =
    let rest = search_directories (i + 1) name more in
    if is_named name n then some (i, directory n ds fs) else rest

unfoldable pub search_files : List ℕ → List File → Option File
search_files name [] = none
search_files name (f ∷ fs) =
    let rest = search_files name fs in if is_named name f.name then some f else rest

-- `none` is a read behind the array.
unfoldable pub nth_directory : ℕ → Directories → Option Directory
nth_directory i no_more = none
nth_directory zero (d ▹ more) = some d
nth_directory (suc i) (d ▹ more) = nth_directory i more

-- `E_SUCCESS` with the value of `*result`, another code, or a use of a null pointer. The loop has
-- one round for each separator of the path.
pub data Answer {ℓ} (A : Type ℓ) : Type ℓ where
  success : A → Answer A
  failure : ℕ → Answer A
  null_pointer : Answer A
  out_of_fuel : Answer A

abbrev pub e_invop : ℕ
e_invop = 1

abbrev pub e_invopt : ℕ
e_invopt = 2

abbrev pub e_noent : ℕ
e_noent = 5

-- `if (tr != E_SUCCESS) return tr; if (ft != want) return E_NOENT;`
abbrev pub when_type {ℓ} : {A : Type ℓ} → Bool → Answer Bool → Answer A → Answer A
when_type true (success true) rest = rest
when_type true (success false) rest = failure e_noent
when_type false (success true) rest = failure e_noent
when_type false (success false) rest = rest
when_type want (failure e) rest = failure e
when_type want null_pointer rest = null_pointer
when_type want out_of_fuel rest = out_of_fuel

-- The separator is `PATHSEP`.
module _ (sep : ℕ) where
  -- `kstrlen(path) > kstrnext(path, PATHSEP)`
  abbrev pub has_more : List ℕ → Bool
  has_more path = ltb (position sep path) (length path)

  abbrev pub next_path : List ℕ → List ℕ
  next_path path = drop (position sep path + 1) path

-- The string behind the block that holds the clone of a part of the path: a clone is
-- as long as its block, without a 0, where its length is a multiple of 16.
module _ (sep : ℕ) (behind : List ℕ → List ℕ) where
  unfoldable pub clone_name : List ℕ → List ℕ
  clone_name path =
      let name = take (min (position sep path) (length path)) path in
      if length name % 16 == 0 then name ++ behind path else name

  -- The flag is `it`.
  unfoldable pub type_loop : ℕ → Bool → List ℕ → Directory → Answer Bool
  type_loop zero it path d = out_of_fuel
  type_loop (suc fuel) it path (directory n ds fs) =
      if not (has_more sep path)
      then success it
      else if it
      then failure e_noent
      else elim (search_directories 0 (clone_name (next_path sep path)) ds) [
        | some (i, d') ↦ type_loop fuel false (next_path sep path) d'
        | none ↦ elim (search_files (clone_name (next_path sep path)) fs) [
          | some f ↦ type_loop fuel true (next_path sep path) (directory n ds fs)
          | none ↦ failure e_noent
        ]
      ]

  unfoldable pub directory_loop : ℕ → Bool → List ℕ → Directory → Answer (Option Directory)
  directory_loop zero it path d = out_of_fuel
  directory_loop (suc fuel) it path (directory n ds fs) =
      if not (has_more sep path)
      then failure e_invop
      else if it
      then failure e_noent
      else elim (search_directories 0 (clone_name (next_path sep path)) ds) [
        | some (i, directory n' ds' fs') ↦ success (nth_directory i ds')
        | none ↦ elim (search_files (clone_name (next_path sep path)) fs) [
          | some f ↦ directory_loop fuel true (next_path sep path) (directory n ds fs)
          | none ↦ failure e_noent
        ]
      ]

  unfoldable pub file_loop : ℕ → Bool → List ℕ → Directory → Answer File
  file_loop zero it path d = out_of_fuel
  file_loop (suc fuel) it path (directory n ds fs) =
      if not (has_more sep path)
      then failure e_invop
      else if it
      then failure e_noent
      else elim (search_directories 0 (clone_name (next_path sep path)) ds) [
        | some (i, d') ↦ file_loop fuel false (next_path sep path) d'
        | none ↦ elim (search_files (clone_name (next_path sep path)) fs) [
          | some f ↦ success f
          | none ↦ failure e_noent
        ]
      ]

  -- The lookup of the file system, and the loop on its root. A root that is null is not read by a
  -- path without a separator.
  abbrev pub from_root {ℓ} :
      {A : Type ℓ} → Answer A → (Directory → Answer A) → List ℕ → Mounts → Answer A
  from_root at_null walk path s =
      if length path == 0 then failure e_invopt else elim (vfs_fs (clone_name path) s) [
        | none ↦ failure e_noent
        | some fs ↦ elim fs.root [
          | none ↦ if has_more sep path then null_pointer else at_null
          | some d ↦ walk d
        ]
      ]

  unfoldable pub vfs_type : List ℕ → Mounts → Answer Bool
  unfolding type_loop
  vfs_type path s = from_root (success false) (type_loop (length path + 1) false path) path s

  unfoldable pub vfs_find_directory : List ℕ → Mounts → Answer (Option Directory)
  unfolding vfs_type directory_loop
  vfs_find_directory path s =
      when_type false (vfs_type path s)
        (from_root (failure e_invop) (directory_loop (length path + 1) false path) path s)

  unfoldable pub vfs_find_file : List ℕ → Mounts → Answer File
  unfolding vfs_type file_loop
  vfs_find_file path s =
      when_type true (vfs_type path s)
        (from_root (failure e_invop) (file_loop (length path + 1) false path) path s)
