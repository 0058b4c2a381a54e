-- ===== src/Libk/Memory/Fill.antt =====
-- kmemset fills exactly its block with the low byte of its value.
use limix.Base.{
  ℕ, zero, suc, ◌+◌, ◌*◌, ◌%◌, ◌≤◌, ◌<◌, ◌≡◌, refl, ap, sym, ◌∙◌, fun_ext, arith, leb, ◌==◌,
  Bool-cases, inl, inr, true, ==_iff, holds_below, holds_below-lt,
}
use limix.Base.Bits.{bit_and-low_mask}
use limix.Libk.Memory.{Mem, Filler, widen, spread, fill_loop, kmemset}
use limix.Libk.Memory.Word.{filled, Repeats, store-filled}

widen_table : holds_below 256 (λ b. widen b == b * 0x0101_0101_0101_0101) ≡ true
unfolding holds_below widen
widen_table = refl

spread-mul : (sval : ℕ) → spread sval ≡ (sval % 256) * 0x0101_0101_0101_0101
unfolding spread
spread-mul sval =
    ap widen (bit_and-low_mask 8 sval)
    ∙ (==_iff _ _).0 (
        holds_below-lt 256 (λ b. widen b == b * 0x0101_0101_0101_0101) (sval % 256) widen_table
          (omega arith))

spread-Repeats : (sval : ℕ) → Repeats 8 (sval % 256) (spread sval)
spread-Repeats sval = rw (spread-mul sval) (omega arith)

Repeats-le : (w j b v : ℕ) → w ≤ j → Repeats j b v → Repeats w b v
Repeats-le zero j b v h reps = tt
Repeats-le (suc w) zero b v h reps = absurd (omega arith)
Repeats-le (suc w) (suc j) b v h reps = (reps.0, Repeats-le w j b _ (omega arith) reps.1)

-- The loop's variables after `k` of the `n` bytes.
record IsAt (m : Mem) (d b n k : ℕ) (c : Filler) : Type 0 where
  mem : c.mem ≡ filled m d b k
  dst : c.addr ≡ d + k
  left : c.count + k ≡ n

module _ (m : Mem) (d b n val : ℕ) (reps : Repeats 8 b val) where
  fill_loop-IsAt :
      (w fuel : ℕ) {k : ℕ} {c : Filler}
      → 0 < w
      → w ≤ 8
      → c.count ≤ fuel
      → IsAt m d b n k c
      → (j : ℕ) × IsAt m d b n j (fill_loop val w fuel c) × ((fill_loop val w fuel c).count < w)
  unfolding fill_loop
  fill_loop-IsAt w zero {k} h small enough at = (k, at, omega arith)
  fill_loop-IsAt w (suc fuel) {k} {c} h small enough at = elim (Bool-cases (leb w c.count)) [
    | inl more ↦
        rw (more, fill_loop)
          (fill_loop-IsAt w fuel {k = k + w} h small (ground arith) (record {
            mem = rw (at.mem) (
                store-filled w m d b k c.addr val (k + w) (Repeats-le w 8 b val small reps) at.dst
                  refl);
            dst = omega arith;
            left = ground arith;
          }))
    | inr done ↦ rw (done, fill_loop) (k, at, ground arith)
  ]

  fill_loops-IsAt :
      (start : Filler)
      → IsAt m d b n 0 start
      → IsAt m d b n n
          (fill_loop val 1 n (fill_loop val 2 n (fill_loop val 4 n (fill_loop val 8 n start))))
  fill_loops-IsAt start at0 =
      let (j8, at8, _) = fill_loop-IsAt 8 n (omega arith) (omega arith) (omega arith) at0 in
      let (j4, at4, _) = fill_loop-IsAt 4 n (omega arith) (omega arith) (omega arith) at8 in
      let (j2, at2, _) = fill_loop-IsAt 2 n (omega arith) (omega arith) (omega arith) at4 in
      let (j1, at1, l1) = fill_loop-IsAt 1 n (omega arith) (omega arith) (omega arith) at2 in
      let e : j1 ≡ n = omega (arith, at1.left, l1) in rw e at at1

filled_none : (m : Mem) (d b : ℕ) → filled m d b 0 ≡ m
filled_none m d b = fun_ext λ x. at x
  where
    at : (x : ℕ) → filled m d b 0 x ≡ m x
    at x = ground arith

-- kmemset writes the low byte of `sval` to the `n` bytes from `d` on, and nowhere else.
pub kmemset-filled : (m : Mem) (d sval n : ℕ) → kmemset m d sval n ≡ filled m d (sval % 256) n
unfolding kmemset
kmemset-filled m d sval n = elim (Bool-cases (n == 0)) [
  | inl zero_count ↦ rw zero_count (rw ((==_iff n 0).0 zero_count) (sym (filled_none m d _)))
  | inr some_count ↦
      rw some_count
        (fill_loops-IsAt m d (sval % 256) n (spread sval) (spread-Repeats sval) _
          (record { mem = sym (filled_none m d _); dst = omega arith; left = omega arith })).mem
]
