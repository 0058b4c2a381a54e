-- ===== src/Fs/Vfs/Mount.antt =====
-- Mounting a file system, and finding it by its name.
use limix.Base.{
  ℕ, ◌≡◌, refl, Bool-cases, inl, inr, if◌then◌else◌, Option, none, some, List, [], ◌∷◌, ◌++◌,
  length,
}
use limix.Fs.Vfs.{Directory, Vfs, Mounts, vfs_make, vfs_fs}
use limix.Fs.Vfs.Spec.{same, mounted, Counted}
use limix.Fs.Vfs.Paths.{vfs_fs_loop-mounted}

-- A mount of that name.
abbrev pub mount : List ℕ → Option Directory → Vfs
mount name root = record { name = record { length = length name; cstr = name }; root = root }

Counted-append : (cs ds : List Vfs) → Counted cs → Counted ds → Counted (cs ++ ds)
Counted-append [] ds k l = l
Counted-append (c ∷ cs) ds (k, ks) l = (k, Counted-append cs ds ks l)

mounted-append :
    (name : List ℕ) (cs ds : List Vfs)
    → mounted name (cs ++ ds) ≡ elim (mounted name cs) [ some c ↦ some c | none ↦ mounted name ds ]
unfolding mounted
mounted-append name [] ds = refl
mounted-append name (c ∷ cs) ds = elim (Bool-cases (same c.name.cstr name)) [
  | inl e ↦ rw e refl
  | inr e ↦ rw e (mounted-append name cs ds)
]

-- Where the block for a mount holds a null `next`, a mount that vfs_make adds is found by its name
-- unless an older mount has that name, and every other name finds what it found before.
pub vfs_make-fs :
    (root : Option Directory) (made name : List ℕ) (s : Mounts)
    → Counted s.filesystems
    → vfs_fs name (vfs_make root [] made s) ≡ elim (vfs_fs name s) [
      | some c ↦ some c
      | none ↦ if same made name then some (mount made root) else none
    ]
unfolding vfs_fs vfs_make mounted
vfs_make-fs root made name s counted =
    rw
      (
        vfs_fs_loop-mounted name s.filesystems counted,
        vfs_fs_loop-mounted name (s.filesystems ++ mount made root ∷ [])
            (Counted-append s.filesystems (mount made root ∷ []) counted (refl, tt)),
      )
      (mounted-append name s.filesystems (mount made root ∷ []))
