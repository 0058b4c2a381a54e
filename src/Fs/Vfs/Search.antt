-- ===== src/Fs/Vfs/Search.antt =====
-- The three searches on a mounted file system.
use limix.Base.{
  ℕ, zero, suc, ◌%◌, ◌<◌, ◌≡◌, ◌≢◌, refl, sym, ap, ◌∙◌, arith, true, false, Bool-cases,
  Option-cases, inl, inr, Option, none, some, List, [], ◌∷◌, length,
}
use limix.Fs.Vfs.{
  Name, File, Directory, directory, Directories, search_directories, search_files, clone_name,
  has_more, next_path, success, type_loop, file_loop,
}
use limix.Fs.Vfs.Spec.{
  split, child_directory, child_file, Entry, is_directory, is_file, entry, Ended, kind_of,
}
use limix.Fs.Vfs.Paths.{
  split_one, split_more, length-next, clone_name-ended, second, search_directories-child,
  search_files-child,
}

found_directory :
    (name : List ℕ) (ds : Directories) (i : ℕ) (d : Directory)
    → search_directories 0 name ds ≡ some (i, d)
    → child_directory name ds ≡ some d
found_directory name ds i d h = sym (search_directories-child 0 name ds) ∙ ap second h

no_directory :
    (name : List ℕ) (ds : Directories)
    → search_directories 0 name ds ≡ none
    → child_directory name ds ≡ none
no_directory name ds h = sym (search_directories-child 0 name ds) ∙ ap second h

found_file :
    (name : List ℕ) (fs : List File) (o : Option File)
    → search_files name fs ≡ o
    → child_file name fs ≡ o
found_file name fs o h = sym (search_files-child name fs) ∙ h

entry_below :
    (name : List ℕ) (names : List (List ℕ)) (n : Name) (ds : Directories) (fs : List File)
    (d : Directory)
    → child_directory name ds ≡ some d
    → entry (name ∷ names) (directory n ds fs) ≡ entry names d
unfolding entry
entry_below name names n ds fs d h = rw (entry, h) refl

abbrev pub last_file : List (List ℕ) → File → Option Entry
last_file [] f = some (is_file f)
last_file (name ∷ names) f = none

entry_file :
    (name : List ℕ) (names : List (List ℕ)) (n : Name) (ds : Directories) (fs : List File)
    (f : File)
    → child_directory name ds ≡ none
    → child_file name fs ≡ some f
    → entry (name ∷ names) (directory n ds fs) ≡ last_file names f
unfolding entry
entry_file name [] n ds fs f h k = rw (entry, h, k) refl
entry_file name (next ∷ more) n ds fs f h k = rw (entry, h) refl

entry_missing :
    (name : List ℕ) (names : List (List ℕ)) (n : Name) (ds : Directories) (fs : List File)
    → child_directory name ds ≡ none
    → child_file name fs ≡ none
    → entry (name ∷ names) (directory n ds fs) ≡ none
unfolding entry
entry_missing name [] n ds fs h k = rw (entry, h, k) refl
entry_missing name (next ∷ more) n ds fs h k = rw (entry, h) refl

not_root :
    (n : Name) (ds : Directories) (fs : List File) (f : File) (names : List (List ℕ))
    → names ≡ []
    → entry names (directory n ds fs) ≢ some (is_file f)
unfolding entry
not_root n ds fs f names e h = ground (arith, rw e at h)

abbrev file_or : File → Option Entry → File
file_or g (some (is_file f)) = f
file_or g (some (is_directory d)) = g
file_or g none = g

last_file_is : (names : List (List ℕ)) (g f : File) → last_file names g ≡ some (is_file f) → g ≡ f
last_file_is [] g f h = ap (file_or g) h
last_file_is (name ∷ names) g f h = absurd (ground (arith, h))

none_is_not_file : (f : File) → none ≢ some (is_file f)
none_is_not_file f h = ground (arith, h)

module _ (sep : ℕ) (behind : List ℕ → List ℕ) where
  -- What one round of a loop finds, and what that says of the entry.
  pub data Found (path : List ℕ) (n : Name) (ds : Directories) (fs : List File) : Type 0 where
    below :
        (i : ℕ) (d : Directory)
        → search_directories 0 (clone_name sep behind (next_path sep path)) ds ≡ some (i, d)
        → entry (split sep path).1 (directory n ds fs) ≡ entry (split sep (next_path sep path)).1 d
        → Found path n ds fs
    a_file :
        (f : File)
        → search_directories 0 (clone_name sep behind (next_path sep path)) ds ≡ none
        → search_files (clone_name sep behind (next_path sep path)) fs ≡ some f
        → entry (split sep path).1 (directory n ds fs)
          ≡ last_file (split sep (next_path sep path)).1 f
        → Found path n ds fs
    missing :
        search_directories 0 (clone_name sep behind (next_path sep path)) ds ≡ none
        → search_files (clone_name sep behind (next_path sep path)) fs ≡ none
        → entry (split sep path).1 (directory n ds fs) ≡ none
        → Found path n ds fs

  pub found :
      (path : List ℕ) (n : Name) (ds : Directories) (fs : List File)
      → has_more sep path ≡ true
      → length (split sep (next_path sep path)).0 % 16 ≢ 0
      → Found path n ds fs
  found path n ds fs e ended = elim (Option-cases (search_directories 0 name ds)) [
    | inr ((i, d), h) ↦
        below i d (rw same_name h)
          (rw cut (entry_below name names n ds fs d (found_directory name ds i d h)))
    | inl h ↦ elim (Option-cases (search_files name fs)) [
      | inr (f, k) ↦ a_file f (rw same_name h) (rw same_name k) (
          rw cut
            (entry_file name names n ds fs f (no_directory name ds h) (found_file name fs _ k)))
      | inl k ↦ missing (rw same_name h) (rw same_name k) (
          rw cut
            (entry_missing name names n ds fs (no_directory name ds h) (found_file name fs _ k)))
    ]
  ]
    where
      name : List ℕ
      name = (split sep (next_path sep path)).0

      names : List (List ℕ)
      names = (split sep (next_path sep path)).1

      cut : (split sep path).1 ≡ name ∷ names
      cut = split_more sep path e

      same_name : clone_name sep behind (next_path sep path) ≡ name
      same_name = clone_name-ended sep behind (next_path sep path) ended

  pub next_path-Ended :
      (path : List ℕ)
      → has_more sep path ≡ true
      → Ended (split sep path).1
      → Ended ((split sep (next_path sep path)).0 ∷ (split sep (next_path sep path)).1)
  next_path-Ended path e ended = simp (split_more sep path e) at ended

  type_loop_file :
      (fuel : ℕ) (path : List ℕ) (d : Directory) (f : File)
      → length path < fuel
      → type_loop sep behind fuel true path d ≡ kind_of (last_file (split sep path).1 f)
  unfolding type_loop
  type_loop_file zero path d f enough = absurd (omega arith)
  type_loop_file (suc fuel) path (directory n ds fs) f enough =
      elim (Bool-cases (has_more sep path)) [
        | inl e ↦ rw (split_more sep path e, e) refl
        | inr e ↦ rw (split_one sep path e, e) refl
      ]

  pub type_loop-entry :
      (fuel : ℕ) (path : List ℕ) (d : Directory)
      → length path < fuel
      → Ended (split sep path).1
      → type_loop sep behind fuel false path d ≡ kind_of (entry (split sep path).1 d)
  unfolding type_loop entry
  type_loop-entry zero path d enough ended = absurd (omega arith)
  type_loop-entry (suc fuel) path (directory n ds fs) enough ended =
      elim (Bool-cases (has_more sep path)) [
        | inr e ↦ rw (split_one sep path e, e) refl
        | inl e ↦
            let next = next_path sep path in
            let (end, ends) = next_path-Ended path e ended in
            let fits : length next < fuel = omega (arith, length-next sep path e) in
            elim (found path n ds fs e end) [
              | below i d h q ↦ rw (q, e, h) (type_loop-entry fuel next d fits ends)
              | a_file f h k q ↦
                  rw (q, e, h, k) (type_loop_file fuel next (directory n ds fs) f fits)
              | missing h k q ↦ rw (q, e, h, k) refl
            ]
      ]

  -- The loop finds the file that a path names.
  pub file_loop_is_file :
      (fuel : ℕ) (path : List ℕ) (d : Directory) (f : File)
      → length path < fuel
      → Ended (split sep path).1
      → entry (split sep path).1 d ≡ some (is_file f)
      → file_loop sep behind fuel false path d ≡ success f
  unfolding file_loop
  file_loop_is_file zero path d f enough ended names = absurd (omega arith)
  file_loop_is_file (suc fuel) path (directory n ds fs) f enough ended names =
      elim (Bool-cases (has_more sep path)) [
        | inr e ↦ absurd (not_root n ds fs f (split sep path).1 (split_one sep path e) names)
        | inl e ↦
            let next = next_path sep path in
            let (end, ends) = next_path-Ended path e ended in
            let fits : length next < fuel = omega (arith, length-next sep path e) in
            elim (found path n ds fs e end) [
              | below i d h q ↦
                  rw (e, h) (file_loop_is_file fuel next d f fits ends (sym q ∙ names))
              | a_file g h k q ↦
                  rw (e, h, k) (ap success (last_file_is (split sep next).1 g f (sym q ∙ names)))
              | missing h k q ↦ absurd (none_is_not_file f (sym q ∙ names))
            ]
      ]
