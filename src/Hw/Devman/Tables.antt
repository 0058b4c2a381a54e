-- ===== src/Hw/Devman/Tables.antt =====
-- The table of storage devices.
use limix.Base.{
  ℕ, ◌+◌, ◌*◌, ◌%◌, ◌^◌, ◌<◌, ◌≤◌, ◌≡◌, ◌≢◌, refl, sym, ◌∙◌, arith, Option, none, some, List, [],
  ◌∷◌, ◌++◌, length, Option-cases, inl, inr,
}
use mathlib.Core.Path.{subst}
use limix.Hw.Devman.{
  Outcome, done, panic, fault, ◌>>=◌, Storage, StorageType, Devman, AccessHandle, fill_slot,
  place_slot, find_storage, devman_get_storage, devman_add_storage,
}

pub >>=-eq-done {ℓ κ} :
    {A : Type ℓ} {B : Type κ} (o : Outcome A) (f : A → Outcome B) {b : B}
    → (o >>= f) ≡ done b
    → (a : A) × (o ≡ done a) × (f a ≡ done b)
>>=-eq-done (done a) f h = (a, refl, h)
>>=-eq-done panic f h = cc
>>=-eq-done fault f h = cc

-- A new element is the last one or fills an empty slot.
pub data Placed {ℓ} {A : Type ℓ} (a : A) : List (Option A) → List (Option A) → Type ℓ where
  at_end : Placed a [] (some a ∷ [])
  at_empty : (xs : List (Option A)) → Placed a (none ∷ xs) (some a ∷ xs)
  behind : (x : A) (xs ys : List (Option A)) → Placed a xs ys → Placed a (some x ∷ xs) (some x ∷ ys)

module _ {ℓ} {A : Type ℓ} (a : A) where
  fill_slot-Placed : (xs ys : List (Option A)) → fill_slot a xs ≡ some ys → Placed a xs ys
  unfolding fill_slot
  fill_slot-Placed [] ys h = absurd (ground arith)
  fill_slot-Placed (none ∷ xs) ys h =
      let e : some a ∷ xs ≡ ys = ground arith in subst (Placed a (none ∷ xs)) e (at_empty xs)
  fill_slot-Placed (some x ∷ xs) ys h = elim (Option-cases (fill_slot a xs)) [
    | inl e ↦ absurd (ground (arith, e))
    | inr (zs, e) ↦
        let same : some x ∷ zs ≡ ys = ground (arith, e) in
        subst (Placed a (some x ∷ xs)) same (behind x xs zs (fill_slot-Placed xs zs e))
  ]

  append-Placed : (xs : List (Option A)) → fill_slot a xs ≡ none → Placed a xs (xs ++ some a ∷ [])
  unfolding fill_slot
  append-Placed [] h = at_end
  append-Placed (none ∷ xs) h = absurd (ground arith)
  append-Placed (some x ∷ xs) h = behind x xs _ (append-Placed xs (ground arith))

  pub place_slot-Placed :
      (room : ℕ → ℕ) (xs ys : List (Option A)) → place_slot room a xs ≡ done ys → Placed a xs ys
  unfolding place_slot
  place_slot-Placed room xs ys h = elim (Option-cases (fill_slot a xs)) [
    | inl e ↦
        let same : xs ++ some a ∷ [] ≡ ys = ground (arith, e) in
        subst (Placed a xs) same (append-Placed xs e)
    | inr (zs, e) ↦
        let same : zs ≡ ys = ground (arith, e) in
        subst (Placed a xs) same (fill_slot-Placed xs zs e)
  ]

-- A storage that has a number of its own is found by it, and the others as before.
find-placed :
    (s : Storage) (xs ys : List (Option Storage))
    → Placed s xs ys
    → find_storage s.number xs ≡ none
    → find_storage s.number ys ≡ some s
unfolding find_storage
find-placed s xs ys at_end h = ground arith
find-placed s xs ys (at_empty zs) h = ground arith
find-placed s xs ys (behind x zs ws p) h = ground (arith, find-placed s zs ws p)

find-placed_other :
    (s : Storage) (d : ℕ) (xs ys : List (Option Storage))
    → Placed s xs ys
    → s.number ≢ d
    → find_storage d ys ≡ find_storage d xs
unfolding find_storage
find-placed_other s d xs ys at_end h = ground arith
find-placed_other s d xs ys (at_empty zs) h = ground arith
find-placed_other s d xs ys (behind x zs ws p) h = ground (arith, find-placed_other s d zs ws p h)

-- All storages of the slots have numbers below `n`.
pub data Below (n : ℕ) : List (Option Storage) → Type 0 where
  nil : Below n []
  gap : (xs : List (Option Storage)) → Below n xs → Below n (none ∷ xs)
  cons :
      (s : Storage) (xs : List (Option Storage)) → s.number < n → Below n xs → Below n (some s ∷ xs)

find-Below : (n : ℕ) (xs : List (Option Storage)) → Below n xs → find_storage n xs ≡ none
unfolding find_storage
find-Below n xs nil = refl
find-Below n xs (gap ys b) = find-Below n ys b
find-Below n xs (cons s ys l b) = ground (arith, find-Below n ys b)

Below-suc : (n : ℕ) (xs : List (Option Storage)) → Below n xs → Below (n + 1) xs
Below-suc n xs nil = nil
Below-suc n xs (gap ys b) = gap ys (Below-suc n ys b)
Below-suc n xs (cons s ys l b) = cons s ys (omega arith) (Below-suc n ys b)

Below-placed :
    (n : ℕ) (s : Storage) (xs ys : List (Option Storage))
    → s.number < n
    → Placed s xs ys
    → Below n xs
    → Below n ys
Below-placed n s xs ys l at_end b = cons s [] l nil
Below-placed n s xs ys l (at_empty zs) (gap _ b) = cons s zs l b
Below-placed n s xs ys l (behind x zs ws p) (cons _ _ k b) =
    cons x ws k (Below-placed n s zs ws l p b)

abbrev pub storage_slots : Devman → List (Option Storage)
storage_slots m = elim m.storage_pointers [ none ↦ none ∷ [] | some xs ↦ xs ]

-- The next number is above all that are in use.
abbrev pub Numbered : Devman → Type 0
Numbered m = Below m.highest_storage (storage_slots m)

module _ {ℓ} {A : Type ℓ} (a : A) (room : ℕ → ℕ) (xs : List (Option A)) where
  pub place_slot-done :
      (length xs + 1) * 8 ≤ room (length xs * 8)
      → (ys : List (Option A)) × (place_slot room a xs ≡ done ys)
  unfolding place_slot
  place_slot-done l = elim (Option-cases (fill_slot a xs)) [
    | inl e ↦ (xs ++ some a ∷ [], ground (arith, e))
    | inr (zs, e) ↦ (zs, ground (arith, e))
  ]

  pub place_slot-fault :
      fill_slot a xs ≡ none
      → room (length xs * 8) < (length xs + 1) * 8
      → place_slot room a xs ≡ fault
  unfolding place_slot
  place_slot-fault e l = ground (arith, e)

abbrev pub new_storage : StorageType → ℕ → ℕ → ℕ → ℕ → Devman → Storage
new_storage type driver_data read write check_attached m = record {
  type = type;
  number = m.highest_storage;
  driver_data = driver_data;
  read = read;
  write = write;
  check_attached = check_attached;
  partitions = none;
}

get_slots : (d : ℕ) (m : Devman) → devman_get_storage d m ≡ find_storage d (storage_slots m)
unfolding devman_get_storage find_storage
get_slots d m = elim (Option-cases m.storage_pointers) [
  | inl e ↦ ground (arith, e)
  | inr (xs, e) ↦ ground (arith, e)
]

-- A storage is registered while its number does not wrap and a block of the table's size has room for
-- one slot more. It is then found under the number that gpt_init gets, all others are found as
-- before, and the next number is again above all that are in use.
pub devman_add_storage-get :
    (room : ℕ → ℕ) (type : StorageType) (data' r w c : ℕ) (m : Devman)
    → Numbered m
    → m.highest_storage + 1 < 2 ^ 64
    → (length (storage_slots m) + 1) * 8 ≤ room (length (storage_slots m) * 8)
    → (m' : Devman) × (h : AccessHandle) × (devman_add_storage room type data' r w c m
        ≡ done (m', h))
      × (devman_get_storage h.storage_index m' ≡ some (new_storage type data' r w c m))
      × ((d : ℕ) → d ≢ h.storage_index → devman_get_storage d m' ≡ devman_get_storage d m)
      × Numbered m'
unfolding devman_add_storage
devman_add_storage-get room type data' r w c m b small fits =
    let s = new_storage type data' r w c m in
    let n = m.highest_storage in
    let (ys, placed) = place_slot-done s room (storage_slots m) fits in
    let p = place_slot-Placed s room (storage_slots m) ys placed in
    let wraps : (n + 1) % 2 ^ 64 ≡ n + 1 = omega arith in
    let m' : Devman = record m { storage_pointers = some ys; highest_storage = (n + 1) % 2 ^ 64 } in
    (
      m',
      record { storage_index = n; partition_index = 0 },
      rw placed refl,
      get_slots n m' ∙ find-placed s (storage_slots m) ys p (find-Below n (storage_slots m) b),
      λ d ne.
          get_slots d m'
          ∙ find-placed_other s d (storage_slots m) ys p (λ e. ne (sym e))
          ∙ sym (get_slots d m),
      rw wraps (
          Below-placed (n + 1) s (storage_slots m) ys (omega arith) p
            (Below-suc n (storage_slots m) b)),
    )

-- A storage is not registered, but written past the end of its table, where all slots are taken and a
-- block of the table's size has no room for one slot more.
pub devman_add_storage-fault :
    (room : ℕ → ℕ) (type : StorageType) (data' r w c : ℕ) (m : Devman)
    → fill_slot (new_storage type data' r w c m) (storage_slots m) ≡ none
    → room (length (storage_slots m) * 8) < (length (storage_slots m) + 1) * 8
    → devman_add_storage room type data' r w c m ≡ fault
unfolding devman_add_storage
devman_add_storage-fault room type data' r w c m full small =
    rw (place_slot-fault (new_storage type data' r w c m) room (storage_slots m) full small) refl
