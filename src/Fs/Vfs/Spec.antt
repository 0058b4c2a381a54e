-- ===== src/Fs/Vfs/Spec.antt =====
-- What a path names: the names between its separators, and the entry that they lead to.
use limix.Base.{
  ℕ, ◌%◌, ◌==◌, ◌&&◌, ◌≢◌, ◌≡◌, Bool, true, false, if◌then◌else◌, Option, none, some, List, [], ◌∷◌,
  length,
}
use limix.Fs.Vfs.{
  File, Directory, directory, Directories, no_more, ◌▹◌, Vfs, Mounts, Answer, success, failure,
  null_pointer, e_invopt, e_noent,
}

-- The name before the first separator, and the names behind.
unfoldable pub split : ℕ → List ℕ → List ℕ × List (List ℕ)
split sep [] = ([], [])
split sep (c ∷ cs) =
    let (name, names) = split sep cs in if c == sep then ([], name ∷ names) else (c ∷ name, names)

unfoldable pub same : List ℕ → List ℕ → Bool
same [] [] = true
same [] (y ∷ ys) = false
same (x ∷ xs) [] = false
same (x ∷ xs) (y ∷ ys) = x == y && same xs ys

unfoldable pub mounted : List ℕ → List Vfs → Option Vfs
mounted name [] = none
mounted name (c ∷ cs) = let rest = mounted name cs in if same c.name.cstr name then some c else rest

unfoldable pub child_directory : List ℕ → Directories → Option Directory
child_directory name no_more = none
child_directory name (directory n ds fs ▹ more) =
    let rest = child_directory name more in
    if same n.cstr name then some (directory n ds fs) else rest

unfoldable pub child_file : List ℕ → List File → Option File
child_file name [] = none
child_file name (f ∷ fs) =
    let rest = child_file name fs in if same f.name.cstr name then some f else rest

pub data Entry : Type 0 where
  is_directory : Directory → Entry
  is_file : File → Entry

-- Directories come before files of the same name.
unfoldable pub entry : List (List ℕ) → Directory → Option Entry
entry [] d = some (is_directory d)
entry (name ∷ names) (directory n ds fs) = elim (child_directory name ds) [
  | some d ↦ entry names d
  | none ↦ elim names [
    | [] ↦ elim (child_file name fs) [ some f ↦ some (is_file f) | none ↦ none ]
    | next ∷ more ↦ none
  ]
]

-- The walk from the root of a mount. There may be no mount, and its root may be null.
unfoldable pub start_root {ℓ} :
    {A : Type ℓ} → Answer A → (Directory → Answer A) → Option Directory → List (List ℕ) → Answer A
start_root at_null walk (some d) names = walk d
start_root at_null walk none [] = at_null
start_root at_null walk none (name ∷ names) = null_pointer

unfoldable pub start {ℓ} :
    {A : Type ℓ} → Answer A → (Directory → Answer A) → Option Vfs → List (List ℕ) → Answer A
unfolding start_root
start at_null walk none names = failure e_noent
start at_null walk (some fs) names = start_root at_null walk fs.root names

-- The walk from the root of the mount that a path names.
unfoldable pub root_of {ℓ} :
    {A : Type ℓ} (sep : ℕ) → Answer A → (Directory → Answer A) → List ℕ → Mounts → Answer A
unfolding start
root_of sep at_null walk [] s = failure e_invopt
root_of sep at_null walk (c ∷ cs) s =
    start at_null walk (mounted (split sep (c ∷ cs)).0 s.filesystems) (split sep (c ∷ cs)).1

-- Names whose clones end in a 0.
abbrev pub Ended : List (List ℕ) → Type 0
Ended [] = Unit
Ended (name ∷ names) = (length name % 16 ≢ 0) × Ended names

abbrev pub EndedPath : ℕ → List ℕ → Type 0
EndedPath sep path = let (name, names) = split sep path in Ended (name ∷ names)

-- The kind of an entry: whether it is a file.
abbrev pub kind_of : Option Entry → Answer Bool
kind_of none = failure e_noent
kind_of (some (is_directory d)) = success false
kind_of (some (is_file f)) = success true

abbrev pub file_of : Option Entry → Answer File
file_of none = failure e_noent
file_of (some (is_directory d)) = failure e_noent
file_of (some (is_file f)) = success f

-- Every mount has its name's length beside it.
abbrev pub Counted : List Vfs → Type 0
Counted [] = Unit
Counted (c ∷ cs) = (c.name.length ≡ length c.name.cstr) × Counted cs
