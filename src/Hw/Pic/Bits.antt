-- ===== src/Hw/Pic/Bits.antt =====
-- A bit of a byte that is set or cleared, by a look at all of them.
use limix.Base.{
  ℕ, ◌-◌, ◌/◌, ◌%◌, ◌^◌, ◌<◌, ◌≡◌, refl, sym, arith, Bool, true, false, not, ◌&&◌, ◌||◌, ◌==◌, ltb,
  bit_and, bit_or, holds_below, holds_below-lt,
}

-- Bit `j` of a byte.
abbrev pub bit : ℕ → ℕ → Bool
bit j v = v / 2 ^ j % 2 == 1

same : Bool → Bool → Bool
same true b = b
same false b = not b

same_eq : (a b : Bool) → same a b ≡ true → a ≡ b
unfolding same
same_eq true true h = refl
same_eq true false h = sym h
same_eq false true h = h
same_eq false false h = refl

for_all : (ℕ → ℕ → ℕ → Bool) → Bool
for_all test = holds_below 8 λ i. holds_below 8 λ j. holds_below 256 λ v. test i j v

for_all_lem :
    (test : ℕ → ℕ → ℕ → Bool)
    → for_all test ≡ true
    → (i j v : ℕ) → i < 8
    → j < 8
    → v < 256
    → test i j v ≡ true
unfolding for_all
for_all_lem test h i j v li lj lv =
    holds_below-lt 256 (test i j) v
      (holds_below-lt 8 (λ j. holds_below 256 (test i j)) j
        (holds_below-lt 8 (λ i. holds_below 8 λ j. holds_below 256 (test i j)) i h li) lj)
      lv

set_table : for_all (λ i j v. same (bit j (bit_or v (2 ^ i) % 256)) (i == j || bit j v)) ≡ true
unfolding for_all holds_below same
set_table = refl

clear_table :
    for_all (λ i j v. same (bit j (bit_and v (255 - 2 ^ i % 256))) (not (i == j) && bit j v)) ≡ true
unfolding for_all holds_below same
clear_table = refl

pub bit-set :
    (i j v : ℕ) → i < 8 → j < 8 → v < 256 → bit j (bit_or v (2 ^ i) % 256) ≡ (i == j || bit j v)
bit-set i j v li lj lv = same_eq _ _ (for_all_lem _ set_table i j v li lj lv)

pub bit-clear :
    (i j v : ℕ)
    → i < 8
    → j < 8
    → v < 256
    → bit j (bit_and v (255 - 2 ^ i % 256)) ≡ (not (i == j) && bit j v)
bit-clear i j v li lj lv = same_eq _ _ (for_all_lem _ clear_table i j v li lj lv)

small_table : for_all (λ i j v. ltb (bit_and v (255 - 2 ^ i % 256)) 256) ≡ true
unfolding for_all holds_below
small_table = refl

pub clear_small : (i v : ℕ) → i < 8 → v < 256 → bit_and v (255 - 2 ^ i % 256) < 256
clear_small i v li lv = ground (arith, for_all_lem _ small_table i 0 v li (omega arith) lv)
