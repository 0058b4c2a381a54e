-- ===== src/Fs/Vfs/Find.antt =====
-- vfs_type, vfs_find_file and vfs_find_directory against the entry that a path names.
use limix.Base.{
  ℕ, ◌+◌, ◌≡◌, refl, ap, ◌∙◌, arith, false, Bool-cases, Option-cases, inl, inr, Option, none, some,
  fun_ext, List, [], ◌∷◌, length, ◌==◌,
}
use limix.Fs.Vfs.{
  Directory, directory, search_directories, nth_directory, clone_name, has_more, Vfs, Mounts,
  Answer, success, failure, e_invop, e_noent, from_root, vfs_type, vfs_fs,
}
use limix.Fs.Vfs.Spec.{
  split, mounted, Counted, entry, root_of, EndedPath, kind_of, start, start_root,
}
use limix.Fs.Vfs.Paths.{split_one, split_more, clone_name-ended, vfs_fs_loop-mounted}
use limix.Fs.Vfs.Search.{type_loop-entry}

module _ (sep : ℕ) (behind : List ℕ → List ℕ) (path : List ℕ) (s : Mounts)
    (ended : EndedPath sep path) (counted : Counted s.filesystems) where
  fs_found : vfs_fs (clone_name sep behind path) s ≡ mounted (split sep path).0 s.filesystems
  unfolding vfs_fs
  fs_found =
      rw (clone_name-ended sep behind path (ended.0))
        (vfs_fs_loop-mounted (split sep path).0 s.filesystems counted)

from_root-root_of {ℓ} :
    {A : Type ℓ} (sep : ℕ) (behind : List ℕ → List ℕ) (at_null : Answer A)
    (walk : Directory → Answer A) (path : List ℕ) (s : Mounts)
    → EndedPath sep path
    → Counted s.filesystems
    → from_root sep behind at_null walk path s ≡ root_of sep at_null walk path s
unfolding root_of start start_root
from_root-root_of sep behind at_null walk [] s ended counted = refl
from_root-root_of sep behind at_null walk (c ∷ cs) s ended counted =
    let some_byte : (length (c ∷ cs) == 0) ≡ false = ground arith in
    let same_fs = fs_found sep behind (c ∷ cs) s ended counted in
    elim (Option-cases (mounted (split sep (c ∷ cs)).0 s.filesystems)) [
      | inl e ↦ rw (root_of, same_fs, e, some_byte) refl
      | inr (fs, e) ↦ elim (Option-cases fs.root) [
        | inr (d, r) ↦ rw (root_of, start, start_root, same_fs, e, r, some_byte) refl
        | inl r ↦ elim (Bool-cases (has_more sep (c ∷ cs))) [
          | inl m ↦
              rw
                (root_of, start, start_root, same_fs, e, r, some_byte, split_more sep (c ∷ cs) m, m)
                refl
          | inr m ↦
              rw (root_of, start, start_root, same_fs, e, r, some_byte, split_one sep (c ∷ cs) m, m)
                refl
        ]
      ]
    ]

-- The same walk from the root, for all roots.
root_of_same {ℓ} :
    {A : Type ℓ} (sep : ℕ) (at_null : Answer A) (f g : Directory → Answer A) (path : List ℕ)
    (s : Mounts)
    → ((d : Directory) → f d ≡ g d)
    → root_of sep at_null f path s ≡ root_of sep at_null g path s
root_of_same sep at_null f g path s h = ap (λ w. root_of sep at_null w path s) (fun_ext h)

-- Where every mount has the length of its name beside it and no part of the path between separators
-- has a length that 16 divides: vfs_type tells a file from a directory as the entry that the path
-- leads to from the root of its mount, and refuses an empty path and one that leads nowhere. A root
-- that is null is a directory for a path without a separator, and is read for any other.
pub vfs_type-entry :
    (sep : ℕ) (behind : List ℕ → List ℕ) (path : List ℕ) (s : Mounts)
    → EndedPath sep path
    → Counted s.filesystems
    → vfs_type sep behind path s
      ≡ root_of sep (success false) (λ d. kind_of (entry (split sep path).1 d)) path s
unfolding vfs_type
vfs_type-entry sep behind path s ended counted =
    from_root-root_of sep behind (success false) _ path s ended counted
    ∙ root_of_same sep (success false) _ _ path s
        (λ d. type_loop-entry sep behind (length path + 1) path d (omega arith) (ended.1))

-- The directory that the first name leads to, and the entry of its own array at the place where it
-- stands itself.
abbrev pub child_at_index : List (List ℕ) → Directory → Answer (Option Directory)
child_at_index [] d = failure e_invop
child_at_index (name ∷ names) (directory n ds fs) = elim (search_directories 0 name ds) [
  | some (i, directory n' ds' fs') ↦ success (nth_directory i ds')
  | none ↦ failure e_noent
]

abbrev child_of : ℕ → Directory → Answer (Option Directory)
child_of i (directory n ds fs) = success (nth_directory i ds)
