-- ===== src/Fs/Vfs/Paths.antt =====
-- The loops cut a path at its separators as `split` does, and compare names as `same` does.
use limix.Base.{
  ℕ, zero, suc, ◌+◌, ◌%◌, ◌≤◌, ◌<◌, ◌≡◌, ◌≢◌, refl, ap, arith, true, false, ◌&&◌, ◌==◌, Bool-cases,
  inl, inr, Option, none, some, List, [], ◌∷◌, length, take, length-drop,
}
use limix.Libk.Strings.{min}
use limix.Libk.Strings.Text.{position}
use limix.Libk.Strings.Equal.{agree}
use limix.Fs.Vfs.{
  Name, File, directory, Directories, no_more, ◌▹◌, is_named, search_directories, search_files,
  clone_name, has_more, next_path, Vfs, vfs_fs_loop,
}
use limix.Fs.Vfs.Spec.{split, same, child_directory, child_file, mounted, Counted}

pub position-le : (c : ℕ) (path : List ℕ) → position c path ≤ length path
position-le c [] = omega arith
position-le c (d ∷ ds) = ground (arith, position-le c ds)

take-position : (sep : ℕ) (path : List ℕ) → take (position sep path) path ≡ (split sep path).0
unfolding split
take-position sep [] = refl
take-position sep (c ∷ cs) = elim (Bool-cases (c == sep)) [
  | inl e ↦ rw e refl
  | inr e ↦ rw e (ap (λ t. c ∷ t) (take-position sep cs))
]

pub split_one : (sep : ℕ) (path : List ℕ) → has_more sep path ≡ false → (split sep path).1 ≡ []
unfolding split
split_one sep [] h = refl
split_one sep (c ∷ cs) h = elim (Bool-cases (c == sep)) [
  | inl e ↦ absurd (ground (arith, e, h))
  | inr e ↦ rw e (split_one sep cs (ground (arith, e, h)))
]

next_path-cons :
    (sep c : ℕ) (cs : List ℕ) → (c == sep) ≡ false → next_path sep (c ∷ cs) ≡ next_path sep cs
next_path-cons sep c cs e =
    let q : suc (position sep cs) + 1 ≡ suc (position sep cs + 1) = omega arith in rw (e, q) refl

pub split_more :
    (sep : ℕ) (path : List ℕ)
    → has_more sep path ≡ true
    → (split sep path).1 ≡ (split sep (next_path sep path)).0 ∷ (split sep (next_path sep path)).1
unfolding split
split_more sep [] h = absurd (ground (arith, h))
split_more sep (c ∷ cs) h = elim (Bool-cases (c == sep)) [
  | inl e ↦ rw e refl
  | inr e ↦ rw (next_path-cons sep c cs e, e) (split_more sep cs (ground (arith, e, h)))
]

pub length-next :
    (sep : ℕ) (path : List ℕ) → has_more sep path ≡ true → length (next_path sep path) < length path
length-next sep path h = ground (arith, length-drop (position sep path + 1) path)

pub clone_name-ended :
    (sep : ℕ) (behind : List ℕ → List ℕ) (path : List ℕ)
    → length (split sep path).0 % 16 ≢ 0
    → clone_name sep behind path ≡ (split sep path).0
unfolding clone_name
clone_name-ended sep behind path ended =
    let e : min (position sep path) (length path) ≡ position sep path =
      ground (arith, position-le sep path) in
    let no : (length (split sep path).0 % 16 == 0) ≡ false = ground (arith, ended) in
    rw (e, take-position sep path, no) refl

length-same : (xs ys : List ℕ) → same xs ys ≡ true → length xs ≡ length ys
unfolding same
length-same [] [] h = refl
length-same [] (y ∷ ys) h = absurd (ground (arith, h))
length-same (x ∷ xs) [] h = absurd (ground (arith, h))
length-same (x ∷ xs) (y ∷ ys) h = ap suc (length-same xs ys (ground (arith, h)))

agree-same : (n : ℕ) (xs ys : List ℕ) → length xs ≡ n → length ys ≡ n → agree n xs ys ≡ same xs ys
unfolding same
agree-same zero [] [] a b = refl
agree-same zero (x ∷ xs) ys a b = absurd (omega (arith, a))
agree-same zero [] (y ∷ ys) a b = absurd (omega (arith, b))
agree-same (suc n) [] ys a b = absurd (omega (arith, a))
agree-same (suc n) (x ∷ xs) [] a b = absurd (omega (arith, b))
agree-same (suc n) (x ∷ xs) (y ∷ ys) a b =
    ground (arith, agree-same n xs ys (omega (arith, a)) (omega (arith, b)))

is_named-same : (name : List ℕ) (n : Name) → is_named name n ≡ same n.cstr name
is_named-same name n = elim (Bool-cases (length n.cstr == length name)) [
  | inl e ↦
      let q : length n.cstr ≡ length name = ground arith in
      rw e (agree-same (length name) n.cstr name q refl)
  | inr e ↦ elim (Bool-cases (same n.cstr name)) [
    | inl s ↦ absurd (ground (arith, e, length-same n.cstr name s))
    | inr d ↦ ground (arith, e, d)
  ]
]

abbrev pub second {ℓ} : {A : Type ℓ} → Option (ℕ × A) → Option A
second none = none
second (some (i, a)) = some a

pub search_directories-child :
    (i : ℕ) (name : List ℕ) (ds : Directories)
    → second (search_directories i name ds) ≡ child_directory name ds
unfolding search_directories child_directory
search_directories-child i name no_more = refl
search_directories-child i name (directory n ds fs ▹ more) = elim (Bool-cases (same n.cstr name)) [
  | inl e ↦ rw (is_named-same name n, e) refl
  | inr e ↦ rw (is_named-same name n, e) (search_directories-child (i + 1) name more)
]

pub search_files-child :
    (name : List ℕ) (fs : List File) → search_files name fs ≡ child_file name fs
unfolding search_files child_file
search_files-child name [] = refl
search_files-child name (f ∷ fs) = elim (Bool-cases (same f.name.cstr name)) [
  | inl e ↦ rw (is_named-same name f.name, e) refl
  | inr e ↦ rw (is_named-same name f.name, e) (search_files-child name fs)
]

is_mount :
    (name : List ℕ) (n : Name)
    → n.length ≡ length n.cstr
    → (length name == n.length && agree (min (length n.cstr) (length name)) n.cstr name)
      ≡ same n.cstr name
is_mount name n counted = elim (Bool-cases (length n.cstr == length name)) [
  | inl e ↦
      let q : length n.cstr ≡ length name = ground arith in
      let t : (length name == n.length) ≡ true = ground (arith, counted) in
      let m : min (length n.cstr) (length name) ≡ length name = ground (arith, q) in
      rw (t, m) (agree-same (length name) n.cstr name q refl)
  | inr e ↦ elim (Bool-cases (same n.cstr name)) [
    | inl s ↦ absurd (ground (arith, e, length-same n.cstr name s))
    | inr d ↦ ground (arith, e, d, counted)
  ]
]

pub vfs_fs_loop-mounted :
    (name : List ℕ) (cs : List Vfs) → Counted cs → vfs_fs_loop name cs ≡ mounted name cs
unfolding vfs_fs_loop mounted
vfs_fs_loop-mounted name [] k = refl
vfs_fs_loop-mounted name (c ∷ cs) (k, ks) = elim (Bool-cases (same c.name.cstr name)) [
  | inl e ↦ rw (is_mount name c.name k, e) refl
  | inr e ↦ rw (is_mount name c.name k, e) (vfs_fs_loop-mounted name cs ks)
]
