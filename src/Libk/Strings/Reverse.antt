-- ===== src/Libk/Strings/Reverse.antt =====
-- reverse turns a block round in place.
use limix.Base.{
  ℕ, zero, suc, ◌+◌, ◌-◌, ◌*◌, ◌≤◌, ◌<◌, ◌≡◌, sym, ap, ◌∙◌, arith, false, ◌==◌, ◌&&◌, ◌||◌, ltb,
  leb, if◌then◌else◌, Bool-cases, inl, inr,
}
use mathlib.Core.Path.{fun_ext}
use limix.Libk.Memory.{Mem, IsBytes, store8}
use limix.Libk.Strings.{swap_loop, reverse, reversed}

-- The `len` bytes from `s` on in the opposite order.
abbrev pub mirrored : Mem → ℕ → ℕ → Mem
mirrored m s len x = if leb s x && ltb x (s + len) then m (s + (len - 1 - (x - s))) else m x

-- The same, done for the `i` outermost pairs only.
abbrev outer : Mem → ℕ → ℕ → ℕ → Mem
outer m s len i x =
    if (leb s x && ltb x (s + i)) || (leb (s + len - i) x && ltb x (s + len))
    then m (s + (len - 1 - (x - s)))
    else m x

outer_zero : (m : Mem) (s len : ℕ) → outer m s len 0 ≡ m
outer_zero m s len = fun_ext λ x. at x
  where
    at : (x : ℕ) → outer m s len 0 x ≡ m x
    at x = ground arith

-- The middle byte of an odd block stays.
outer-mirrored :
    (m : Mem) (s len i : ℕ) → len ≤ i * 2 + 1 → i * 2 ≤ len → outer m s len i ≡ mirrored m s len
outer-mirrored m s len i enough whole = fun_ext λ x. at x
  where
    middle : (x : ℕ) → s + i ≤ x → x < s + len - i → s + (len - 1 - (x - s)) ≡ x
    middle x l u = omega arith

    at : (x : ℕ) → outer m s len i x ≡ mirrored m s len x
    at x = elim (Bool-cases (leb (s + i) x && ltb x (s + len - i))) [
      | inl inside ↦ ground (arith, inside, ap m (middle x (ground arith) (ground arith)))
      | inr outside ↦ ground (arith, outside)
    ]

-- One round swaps the next pair.
store8-outer :
    (m : Mem) (s len i : ℕ)
    → IsBytes m
    → i * 2 + 1 < len
    → let j = len - 1 - i in
      let o = outer m s len i in
      store8 (store8 o (s + i) (o (s + j))) (s + j) (o (s + i)) ≡ outer m s len (i + 1)
unfolding store8
store8-outer m s len i bytes more = fun_ext λ x. at x
  where
    j : ℕ
    j = len - 1 - i

    o : Mem
    o = outer m s len i

    low : o (s + i) ≡ m (s + i)
    low = ground arith

    high : o (s + j) ≡ m (s + j)
    high = ground arith

    opposite : len - 1 - j ≡ i
    opposite = omega arith

    at :
        (x : ℕ)
        → store8 (store8 o (s + i) (o (s + j))) (s + j) (o (s + i)) x ≡ outer m s len (i + 1) x
    at x = elim (Bool-cases (x == s + i)) [
      | inl first ↦
          let e : x ≡ s + i = ground arith in
          rw e (ground (arith, low, high, bytes (s + j), ap (λ k. m (s + k)) opposite))
      | inr rest ↦ elim (Bool-cases (x == s + j)) [
        | inl second ↦
            let e : x ≡ s + j = ground arith in
            rw e (ground (arith, low, high, bytes (s + i), ap (λ k. m (s + k)) opposite))
        | inr other ↦ ground (arith, rest, other)
      ]
    ]

swap_loop-mirrored :
    (fuel i : ℕ) (m : Mem) (s len : ℕ)
    → IsBytes m
    → i * 2 ≤ len
    → len ≤ fuel + i
    → swap_loop fuel (outer m s len i) s i (len - 1 - i) ≡ mirrored m s len
unfolding swap_loop
swap_loop-mirrored zero i m s len bytes whole enough =
    outer-mirrored m s len i (omega arith) (omega arith)
swap_loop-mirrored (suc fuel) i m s len bytes whole enough =
    elim (Bool-cases (ltb i (len - 1 - i))) [
      | inl more ↦
          let next : len - 1 - i - 1 ≡ len - 1 - (i + 1) = omega arith in
          rw (more, store8-outer m s len i bytes (ground arith), next, swap_loop)
            (swap_loop-mirrored fuel (i + 1) m s len bytes (ground arith) (omega arith))
      | inr done ↦ rw (done, swap_loop) (outer-mirrored m s len i (ground arith) whole)
    ]

-- In a memory of bytes, reverse of a non-empty block at a non-null pointer leaves its bytes in the
-- opposite order and writes nothing else.
pub reverse-mirrored :
    (m : Mem) (s len : ℕ)
    → IsBytes m
    → 0 < s
    → 0 < len
    → reverse m s len ≡ reversed (mirrored m s len)
unfolding reverse
reverse-mirrored m s len bytes pointer some_byte =
    let go : (len == 0 || s == 0) ≡ false = ground arith in
    let last : len - 1 ≡ len - 1 - 0 = omega arith in
    rw go (
      ap reversed (
        ap (λ o. swap_loop len o s 0 (len - 1)) (sym (outer_zero m s len))
        ∙ ap (λ j. swap_loop len (outer m s len 0) s 0 j) last
        ∙ swap_loop-mirrored len 0 m s len bytes (omega arith) (omega arith)))
