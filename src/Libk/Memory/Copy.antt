-- ===== src/Libk/Memory/Copy.antt =====
-- kmemcpy against the byte-by-byte copy.
use limix.Base.{
  ℕ, zero, suc, ◌+◌, ◌-◌, ◌≤◌, ◌<◌, ◌≡◌, refl, fun_ext, arith, leb, ◌==◌, Bool-cases, ◌⊎◌, inl, inr,
  sym, ==_iff,
}
use limix.Libk.Memory.{Mem, IsBytes, Cursor, copy_word, copy_loop, kmemcpy}
use limix.Libk.Memory.Word.{copied, store-load}

-- A forward copy reads each byte before it can overwrite it: the destination lies below the
-- source, or behind its end.
abbrev pub Forward : ℕ → ℕ → ℕ → Type 0
Forward d s n = (d ≤ s) ⊎ (s + n ≤ d)

-- The cursor after `k` of the `n` bytes.
pub record IsAt (m : Mem) (d s n k : ℕ) (c : Cursor) : Type 0 where
  pub mem : c.mem ≡ copied m d s k
  pub dst : c.dstaddr ≡ d + k
  pub src : c.srcaddr ≡ s + k
  pub left : c.count + k ≡ n

-- What is still to be read has not been written.
copied_ahead :
    (m : Mem) (d s n k j x : ℕ)
    → Forward d s n
    → j ≤ n
    → s + k ≤ x
    → x < s + j
    → copied m d s k x ≡ m x
copied_ahead m d s n k j x f h l u = ground arith

copy_word_count : (w : ℕ) (c : Cursor) → (copy_word w c).count ≡ c.count - w
unfolding copy_word
copy_word_count w c = refl

copy_word-IsAt :
    (w : ℕ) {m : Mem} {d s n k : ℕ} {c : Cursor}
    → IsBytes m
    → Forward d s n
    → w ≤ c.count
    → IsAt m d s n k c
    → IsAt m d s n (k + w) (copy_word w c)
unfolding copy_word
copy_word-IsAt w {m} {d} {s} {n} {k} {c} bytes f h at = record {
  mem = rw (at.mem) (
      store-load w m (copied m d s k) d s k c.dstaddr c.srcaddr (k + w) bytes at.dst at.src refl
        (λ x l u. copied_ahead m d s n k (k + w) x f (omega arith) l u));
  dst = omega arith;
  src = omega arith;
  left = omega arith;
}

-- A loop leaves fewer than `w` bytes.
copy_loop-IsAt :
    (w fuel : ℕ) {m : Mem} {d s n k : ℕ} {c : Cursor}
    → IsBytes m
    → Forward d s n
    → 0 < w
    → c.count ≤ fuel
    → IsAt m d s n k c
    → (j : ℕ) × IsAt m d s n j (copy_loop w fuel c) × ((copy_loop w fuel c).count < w)
unfolding copy_loop
copy_loop-IsAt w zero {k} bytes f h enough at = (k, at, omega arith)
copy_loop-IsAt w (suc fuel) {k} {c} bytes f h enough at = elim (Bool-cases (leb w c.count)) [
  | inl more ↦
      rw (more, copy_loop)
        (copy_loop-IsAt w fuel bytes f h (ground (arith, copy_word_count w c))
          (copy_word-IsAt w bytes f (ground arith) at))
  | inr done ↦ rw (done, copy_loop) (k, at, ground arith)
]

copied_none : (m : Mem) (d s : ℕ) → copied m d s 0 ≡ m
copied_none m d s = fun_ext λ x. at x
  where
    at : (x : ℕ) → copied m d s 0 x ≡ m x
    at x = ground arith

-- The four loops one after the other, from a fresh cursor.
loops-IsAt :
    (m : Mem) (d s n : ℕ) (start : Cursor)
    → IsBytes m
    → Forward d s n
    → IsAt m d s n 0 start
    → IsAt m d s n n (copy_loop 1 n (copy_loop 2 n (copy_loop 4 n (copy_loop 8 n start))))
loops-IsAt m d s n start bytes f at0 =
    let (j8, at8, _) = copy_loop-IsAt 8 n bytes f (omega arith) (omega arith) at0 in
    let (j4, at4, _) = copy_loop-IsAt 4 n bytes f (omega arith) (omega arith) at8 in
    let (j2, at2, _) = copy_loop-IsAt 2 n bytes f (omega arith) (omega arith) at4 in
    let (j1, at1, l1) = copy_loop-IsAt 1 n bytes f (omega arith) (omega arith) at2 in
    let e : j1 ≡ n = omega (arith, at1.left, l1) in rw e at at1

-- In a memory of bytes, for a target that does not start above the source, or starts behind its
-- end, kmemcpy copies `n` bytes to the target and writes nothing else.
pub kmemcpy-copied :
    (m : Mem) (d s n : ℕ) → IsBytes m → Forward d s n → kmemcpy m d s n ≡ copied m d s n
unfolding kmemcpy
kmemcpy-copied m d s n bytes f = elim (Bool-cases (n == 0)) [
  | inl zero_count ↦ rw zero_count (rw ((==_iff n 0).0 zero_count) (sym (copied_none m d s)))
  | inr some_count ↦
      rw some_count
        (loops-IsAt m d s n _ bytes f (record {
          mem = sym (copied_none m d s);
          dst = omega arith;
          src = omega arith;
          left = omega arith;
        })).mem
]
