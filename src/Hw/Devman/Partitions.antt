-- ===== src/Hw/Devman/Partitions.antt =====
-- The partitions of a storage device.
use limix.Base.{
  ℕ, ◌+◌, ◌*◌, ◌<◌, ◌≤◌, ◌≡◌, ◌≢◌, ◌⊎◌, refl, sym, ap, ◌∙◌, arith, ◌==◌, Option, none, some, List,
  [], ◌∷◌, length, Bool-cases, Option-cases, inl, inr,
}
use limix.Hw.Devman.{
  done, fault, Partition, Storage, Devman, AccessHandle, fill_slot, place_slot, find_storage,
  replace_storage, find_partition, no_partition, partition_slots, devman_get_storage,
  devman_get_partition, devman_add_partition,
}
use limix.Hw.Devman.Tables.{
  Placed, at_end, at_empty, behind, place_slot-Placed, place_slot-done, place_slot-fault,
}

find-placed :
    (p : Partition) (xs ys : List (Option Partition))
    → Placed p xs ys
    → find_partition p.id xs ≡ none
    → find_partition p.id ys ≡ some p
unfolding find_partition
find-placed p xs ys at_end h = ground arith
find-placed p xs ys (at_empty zs) h = ground arith
find-placed p xs ys (behind x zs ws q) h = ground (arith, find-placed p zs ws q)

find-placed_other :
    (p : Partition) (id : ℕ) (xs ys : List (Option Partition))
    → Placed p xs ys
    → p.id ≢ id
    → find_partition id ys ≡ find_partition id xs
unfolding find_partition
find-placed_other p id xs ys at_end h = ground arith
find-placed_other p id xs ys (at_empty zs) h = ground arith
find-placed_other p id xs ys (behind x zs ws q) h = ground (arith, find-placed_other p id zs ws q h)

find-replaced :
    (d : ℕ) (s t : Storage) (xs : List (Option Storage))
    → find_storage d xs ≡ some s
    → t.number ≡ s.number
    → find_storage d (replace_storage d t xs) ≡ some t
unfolding find_storage replace_storage
find-replaced d s t [] h e = absurd (ground arith)
find-replaced d s t (none ∷ xs) h e = find-replaced d s t xs h e
find-replaced d s t (some x ∷ xs) h e = ground (arith, find-replaced d s t xs)

find-replaced_other :
    (d k : ℕ) (t : Storage) (xs : List (Option Storage))
    → t.number ≡ d
    → k ≢ d
    → find_storage k (replace_storage d t xs) ≡ find_storage k xs
unfolding find_storage replace_storage
find-replaced_other d k t [] e n = refl
find-replaced_other d k t (none ∷ xs) e n = find-replaced_other d k t xs e n
find-replaced_other d k t (some x ∷ xs) e n = ground (arith, find-replaced_other d k t xs e n)

found_number :
    (d : ℕ) (s : Storage) (xs : List (Option Storage)) → find_storage d xs ≡ some s → s.number ≡ d
unfolding find_storage
found_number d s [] h = absurd (ground arith)
found_number d s (none ∷ xs) h = found_number d s xs h
found_number d s (some x ∷ xs) h = ground (arith, found_number d s xs)

-- What is found in the slots of a storage.
abbrev or_none : Option Partition → Partition
or_none o = elim o [ none ↦ no_partition | some p ↦ p ]

get_found :
    (d id : ℕ) (s : Storage) (m : Devman)
    → id ≢ 0
    → d < m.highest_storage
    → devman_get_storage d m ≡ some s
    → devman_get_partition d id m ≡ or_none (find_partition id (partition_slots none s))
unfolding devman_get_partition find_partition
get_found d id s m nz l e = elim (Option-cases s.partitions) [
  | inl f ↦ ground (arith, e, f)
  | inr (ps, f) ↦ ground (arith, e, f)
]

get_same :
    (d id : ℕ) (m m' : Devman)
    → m'.highest_storage ≡ m.highest_storage
    → devman_get_storage d m' ≡ devman_get_storage d m
    → devman_get_partition d id m' ≡ devman_get_partition d id m
unfolding devman_get_partition
get_same d id m m' h e = rw (h, e) refl

pub table_of :
    (d : ℕ) (s : Storage) (m : Devman)
    → devman_get_storage d m ≡ some s
    → (xs : List (Option Storage)) × (m.storage_pointers ≡ some xs) × (find_storage d xs ≡ some s)
unfolding devman_get_storage
table_of d s m h = elim (Option-cases m.storage_pointers) [
  | inl e ↦ absurd (ground (arith, e))
  | inr (xs, e) ↦ (xs, e, ground (arith, e))
]

-- The handle of all of a storage.
abbrev pub whole : ℕ → AccessHandle
whole d = record { storage_index = d; partition_index = 0 }

module _ (room : ℕ → ℕ) (fresh : Option Partition) (d start end id : ℕ) (s : Storage)
    (m : Devman) where
  abbrev pub new : Partition
  new = record { start = start; end = end; id = id }

  abbrev pub slots : List (Option Partition)
  slots = partition_slots fresh s

  abbrev pub added : List (Option Storage) → List (Option Partition) → Devman
  added xs ys = record m {
    storage_pointers = some (replace_storage d (record s { partitions = some ys }) xs);
  }

  pub add_run :
      (xs : List (Option Storage)) (ys : List (Option Partition))
      → m.storage_pointers ≡ some xs
      → find_storage d xs ≡ some s
      → place_slot room new slots ≡ done ys
      → devman_add_partition room fresh (whole d) start end id m ≡ done (added xs ys)
  unfolding devman_add_partition
  add_run xs ys e f p = ground (arith, e, f, p)

  pub add_fails :
      (xs : List (Option Storage))
      → m.storage_pointers ≡ some xs
      → find_storage d xs ≡ some s
      → place_slot room new slots ≡ fault
      → devman_add_partition room fresh (whole d) start end id m ≡ fault
  unfolding devman_add_partition
  add_fails xs e f p = ground (arith, e, f, p)

  pub get_added :
      (xs : List (Option Storage)) (ys : List (Option Partition))
      → find_storage d xs ≡ some s
      → devman_get_storage d (added xs ys) ≡ some (record s { partitions = some ys })
  unfolding devman_get_storage
  get_added xs ys f = find-replaced d s (record s { partitions = some ys }) xs f refl

  get_added_other :
      (xs : List (Option Storage)) (ys : List (Option Partition)) (k : ℕ)
      → m.storage_pointers ≡ some xs
      → find_storage d xs ≡ some s
      → k ≢ d
      → devman_get_storage k (added xs ys) ≡ devman_get_storage k m
  unfolding devman_get_storage
  get_added_other xs ys k e f n =
      find-replaced_other d k (record s { partitions = some ys }) xs (found_number d s xs f) n
      ∙ ground (arith, e)

-- A partition with an id of its own, which is not 0, is added to a storage while a block of the size
-- of its array has room for one slot more. It is then found by its id.
pub devman_add_partition-get :
    (room : ℕ → ℕ) (fresh : Option Partition) (d start end id : ℕ) (s : Storage) (m : Devman)
    → devman_get_storage d m ≡ some s
    → d < m.highest_storage
    → id ≢ 0
    → find_partition id (partition_slots fresh s) ≡ none
    → (length (partition_slots fresh s) + 1) * 8 ≤ room (length (partition_slots fresh s) * 8)
    → (m' : Devman) × (devman_add_partition room fresh (whole d) start end id m ≡ done m')
      × (devman_get_partition d id m' ≡ record { start = start; end = end; id = id })
devman_add_partition-get room fresh d start end id s m found drive nz absent fits =
    let (xs, e, f) = table_of d s m found in
    let p : Partition = record { start = start; end = end; id = id } in
    let (ys, placed) = place_slot-done p room (partition_slots fresh s) fits in
    let put = place_slot-Placed p room (partition_slots fresh s) ys placed in
    let m' = added room fresh d start end id s m xs ys in
    let now = find-placed p (partition_slots fresh s) ys put absent in
    (
      m',
      add_run room fresh d start end id s m xs ys e f placed,
      get_found d id (record s { partitions = some ys }) m' nz drive
            (get_added room fresh d start end id s m xs ys f)
          ∙ ap or_none now,
    )

get_all : (k : ℕ) (m m' : Devman) → devman_get_partition k 0 m' ≡ devman_get_partition k 0 m
unfolding devman_get_partition
get_all k m m' = refl

-- A partition that is added to a storage like that, with the first slot of a new array empty, leaves
-- the partitions of other ids and of other storages as they are.
pub devman_add_partition-other :
    (room : ℕ → ℕ) (d start end id : ℕ) (s : Storage) (m : Devman)
    → devman_get_storage d m ≡ some s
    → d < m.highest_storage
    → (length (partition_slots none s) + 1) * 8 ≤ room (length (partition_slots none s) * 8)
    → (m' : Devman) × (devman_add_partition room none (whole d) start end id m ≡ done m')
      × ((k i : ℕ) → (k ≢ d) ⊎ (i ≢ id) → devman_get_partition k i m' ≡ devman_get_partition k i m)
devman_add_partition-other room d start end id s m found drive fits =
    (m', add_run room none d start end id s m xs ys e f put.1, kept)
  where
    table :
        (xs : List (Option Storage)) × (m.storage_pointers ≡ some xs) × (find_storage d xs ≡ some s)
    table = table_of d s m found

    xs : List (Option Storage)
    xs = table.0

    e : m.storage_pointers ≡ some xs
    e = table.1

    f : find_storage d xs ≡ some s
    f = table.2

    p : Partition
    p = record { start = start; end = end; id = id }

    put : (ys : List (Option Partition)) × (place_slot room p (partition_slots none s) ≡ done ys)
    put = place_slot-done p room (partition_slots none s) fits

    ys : List (Option Partition)
    ys = put.0

    m' : Devman
    m' = added room none d start end id s m xs ys

    same_storage : (i : ℕ) → i ≢ id → devman_get_partition d i m' ≡ devman_get_partition d i m
    same_storage i n = elim (Bool-cases (i == 0)) [
      | inl z ↦ let zero_id : i ≡ 0 = ground arith in rw zero_id (get_all d m m')
      | inr nz ↦
          let nonzero : i ≢ 0 = ground arith in
          get_found d i (record s { partitions = some ys }) m' nonzero drive
            (get_added room none d start end id s m xs ys f)
          ∙ ap or_none (
              find-placed_other p i (partition_slots none s) ys
                (place_slot-Placed p room (partition_slots none s) ys put.1)
                (λ (q : id ≡ i). n (sym q)))
          ∙ sym (get_found d i s m nonzero drive found)
    ]

    elsewhere : (k i : ℕ) → k ≢ d → devman_get_partition k i m' ≡ devman_get_partition k i m
    elsewhere k i n =
        get_same k i m m' refl (get_added_other room none d start end id s m xs ys k e f n)

    kept : (k i : ℕ) → (k ≢ d) ⊎ (i ≢ id) → devman_get_partition k i m' ≡ devman_get_partition k i m
    kept k i (inl n) = elsewhere k i n
    kept k i (inr n) = elim (Bool-cases (k == d)) [
      | inl same ↦ let q : k ≡ d = ground arith in rw q (same_storage i n)
      | inr other ↦ elsewhere k i (ground arith)
    ]

-- A partition is not added, but written past the end of its array, where all slots are taken and a
-- block of the array's size has no room for one slot more.
pub devman_add_partition-fault :
    (room : ℕ → ℕ) (fresh : Option Partition) (d start end id : ℕ) (s : Storage) (m : Devman)
    → devman_get_storage d m ≡ some s
    → fill_slot (record { start = start; end = end; id = id }) (partition_slots fresh s) ≡ none
    → room (length (partition_slots fresh s) * 8) < (length (partition_slots fresh s) + 1) * 8
    → devman_add_partition room fresh (whole d) start end id m ≡ fault
devman_add_partition-fault room fresh d start end id s m found full small =
    let (xs, e, f) = table_of d s m found in
    add_fails room fresh d start end id s m xs e f (
      place_slot-fault (record { start = start; end = end; id = id }) room (partition_slots fresh s)
        full small)
