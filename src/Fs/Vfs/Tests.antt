-- ===== src/Fs/Vfs/Tests.antt =====
-- Paths on a mount "r" whose root holds a directory "d", which holds a directory "e" and a file "f".
use limix.Base.{ℕ, ◌≡◌, refl, some, List, [], ◌∷◌}
use limix.Fs.Vfs.{
  File, Directory, directory, no_more, ◌▹◌, Mounts, success, failure, e_invop, to_name, vfs_fs,
  vfs_find_file, vfs_find_directory, clone_name, search_directories, search_files, nth_directory,
}
use limix.Fs.Vfs.Mount.{mount}

abbrev the_file : File
the_file = record { name = to_name (b'f' ∷ []); size = 3; read = 1; write = 2; data_pointer = 0 }

abbrev inner : Directory
inner = directory (to_name (b'e' ∷ [])) no_more []

abbrev outer : Directory
outer = directory (to_name (b'd' ∷ [])) (inner ▹ no_more) (the_file ∷ [])

abbrev the_root : Directory
the_root = directory (to_name []) (outer ▹ no_more) []

abbrev mounts : Mounts
mounts = record { filesystems = mount (b'r' ∷ []) (some the_root) ∷ []; fs_count = 1 }

abbrev behind : List ℕ → List ℕ
behind path = []

abbrev to_file : List ℕ
to_file = b'r' ∷ b'/' ∷ b'd' ∷ b'/' ∷ b'f' ∷ []

abbrev to_directory : List ℕ
to_directory = b'r' ∷ b'/' ∷ b'd' ∷ []

finds_file : vfs_find_file b'/' behind to_file mounts ≡ success the_file
unfolding vfs_find_file vfs_fs clone_name search_directories search_files
finds_file = refl

finds_inner : vfs_find_directory b'/' behind to_directory mounts ≡ success (some inner)
unfolding vfs_find_directory vfs_fs clone_name search_directories nth_directory
finds_inner = refl

refuses_root : vfs_find_directory b'/' behind (b'r' ∷ []) mounts ≡ failure e_invop
unfolding vfs_find_directory vfs_fs clone_name
refuses_root = refl
