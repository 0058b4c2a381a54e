-- ===== src/Fs/Gpt/Attached.antt =====
-- A storage stays attached while partitions are added to it.
use limix.Base.{
  ℕ, ◌+◌, ◌*◌, ◌≡◌, arith, Option, some, List, [], ◌∷◌, ◌++◌, ◌⊎◌, leb, length, Option-cases,
  Bool-cases, inl, inr,
}
use mathlib.Core.Path.{subst}
use limix.Hw.Devman.{
  done, fault, Partition, Storage, Devman, fill_slot, place_slot, devman_get_storage,
  devman_add_partition,
}
use limix.Hw.Devman.Partitions.{whole, table_of, new, slots, added, add_run, add_fails, get_added}

-- Storage `d` is there, with its function and the data of its driver.
abbrev pub IsAttached : ℕ → ℕ → ℕ → Devman → Type 0
IsAttached d function driver_data m =
    (s : Storage) × (devman_get_storage d m ≡ some s)
    × (s.read ≡ function)
    × (s.driver_data ≡ driver_data)

-- A slot is found or made, or the write of a new one fails.
place_slot-cases {ℓ} :
    {A : Type ℓ} (room : ℕ → ℕ) (a : A) (xs : List (Option A))
    → ((ys : List (Option A)) × (place_slot room a xs ≡ done ys)) ⊎ (place_slot room a xs ≡ fault)
unfolding place_slot
place_slot-cases room a xs = elim (Option-cases (fill_slot a xs)) [
  | inr (ys, e) ↦ inl (ys, ground (arith, e))
  | inl e ↦ elim (Bool-cases (leb ((length xs + 1) * 8) (room (length xs * 8)))) [
    | inl b ↦ inl (xs ++ some a ∷ [], ground (arith, e, b))
    | inr b ↦ inr (ground (arith, e, b))
  ]
]

pub add-IsAttached :
    (room : ℕ → ℕ) (fresh : Option Partition) (d start end id function driver_data : ℕ)
    (m m' : Devman)
    → IsAttached d function driver_data m
    → devman_add_partition room fresh (whole d) start end id m ≡ done m'
    → IsAttached d function driver_data m'
add-IsAttached room fresh d start end id function driver_data m m' (s, found, r, dd) h =
    let (xs, e, f) = table_of d s m found in
    elim (place_slot-cases room (new room fresh d start end id s m)
      (slots room fresh d start end id s m)) [
        | inl (ys, placed) ↦
            let run = add_run room fresh d start end id s m xs ys e f placed in
            let same : added room fresh d start end id s m xs ys ≡ m' = cc in
            (
              record s { partitions = some ys },
              subst (λ n. devman_get_storage d n ≡ some (record s { partitions = some ys })) same
                  (get_added room fresh d start end id s m xs ys f),
              r,
              dd,
            )
        | inr failed ↦ absurd (cc (add_fails room fresh d start end id s m xs e f failed))
      ]
