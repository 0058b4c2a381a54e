-- ===== src/Libk/Strings/Digits.antt =====
-- The digits that ntos writes.
use limix.Base.{
  ℕ, zero, suc, ◌+◌, ◌-◌, ◌*◌, ◌/◌, ◌%◌, ◌^◌, ◌≤◌, ◌<◌, ◌≡◌, refl, sym, ap, ◌∙◌, fun_ext, arith,
  true, false, ◌==◌, ◌&&◌, ltb, leb, if◌then◌else◌, Bool-cases, inl, inr,
}
use native.Mathlib.Nat.{
  le-div_iff_mul-le, div-lt_iff_lt-mul, div-div-eq-div-mul, pow-suc, div-eq_of_lt, mul_comm,
  one-le-pow, pow-zero, div-one,
}
use limix.Libk.Memory.{Mem, IsBytes, store8}
use limix.Libk.Memory.Fill.{kmemset-filled}
use limix.Libk.Memory.Word.{filled}
use limix.Libk.Strings.{reversed, reverse}
use limix.Libk.Strings.Ntos.{str_ok, digit_char, digit_loop, clear_buffer, ntos}
use limix.Libk.Strings.Reverse.{mirrored, reverse-mirrored}

-- `n` has `d` digits in the base; 0 has none.
abbrev pub HasDigits : ℕ → ℕ → ℕ → Type 0
HasDigits base n zero = n ≡ 0
HasDigits base n (suc k) = (base ^ k ≤ n) × (n < base ^ suc k)

-- `n` without its last digit has one digit less.
HasDigits-div : (base n k : ℕ) → 2 ≤ base → HasDigits base n (suc k) → HasDigits base (n / base) k
HasDigits-div base n zero b (low, high) =
    div-eq_of_lt (omega (arith, high, pow-suc base 0 ∙ ap (λ (t : ℕ). t * base) (pow-zero base)))
HasDigits-div base n (suc k) b (low, high) = (
  (le-div_iff_mul-le {k = base} (omega arith)).1 (omega (arith, low, pow-suc base k)),
  (div-lt_iff_lt-mul {k = base} (omega arith)).1 (omega (arith, high, pow-suc base (suc k))),
)

-- Memory with the `d` digits of `n` at `a`, the last one first.
abbrev written : Mem → ℕ → ℕ → ℕ → ℕ → Mem
written m base n a d x =
    if leb a x && ltb x (a + d) then digit_char (n / base ^ (x - a) % base) else m x

digit_char-small : (d : ℕ) → digit_char d < 256
unfolding digit_char
digit_char-small d = ground arith

written_first :
    (m : Mem) (base n a d : ℕ)
    → written (store8 m a (digit_char (n % base))) base (n / base) (a + 1) d
      ≡ written m base n a (suc d)
unfolding store8
written_first m base n a d = fun_ext λ x. at x
  where
    next : (k : ℕ) → n / base / base ^ k ≡ n / base ^ suc k
    next k =
        div-div-eq-div-mul n base (base ^ k)
        ∙ ap (λ (t : ℕ). n / t) (mul_comm base (base ^ k) ∙ sym (pow-suc base k))

    at :
        (x : ℕ)
        → written (store8 m a (digit_char (n % base))) base (n / base) (a + 1) d x
          ≡ written m base n a (suc d) x
    at x = elim (Bool-cases (x == a)) [
      | inl here ↦
          let k : x - a ≡ 0 = ground (arith, here) in
          let digit : n / base ^ (x - a) ≡ n =
            ap (λ (t : ℕ). n / base ^ t) k ∙ ap (λ (t : ℕ). n / t) (pow-zero base) ∙ div-one n in
          ground
            (arith, here, digit_char-small (n % base), ap (λ (t : ℕ). digit_char (t % base)) digit)
      | inr there ↦ elim (Bool-cases (leb (a + 1) x)) [
        | inl later ↦
            let k : suc (x - (a + 1)) ≡ x - a = ground (arith, later) in
            let digit : n / base / base ^ (x - (a + 1)) ≡ n / base ^ (x - a) =
              next (x - (a + 1)) ∙ ap (λ (t : ℕ). n / base ^ t) k in
            ground (arith, there, later, ap (λ (t : ℕ). digit_char (t % base)) digit)
        | inr before ↦ ground (arith, there, before)
      ]
    ]

written_none : (m : Mem) (base n a : ℕ) → written m base n a 0 ≡ m
written_none m base n a = fun_ext λ x. at x
  where
    at : (x : ℕ) → written m base n a 0 x ≡ m x
    at x = ground arith

digit_loop-written :
    (d left : ℕ) (m : Mem) (buf base n p : ℕ)
    → 2 ≤ base
    → d ≤ left
    → HasDigits base n d
    → digit_loop left m buf base n p ≡ (written m base n (buf + p) d, p + d)
unfolding digit_loop
digit_loop-written zero zero m buf base n p b l h = ground (arith, written_none m base n (buf + p))
digit_loop-written zero (suc left) m buf base n p b l h =
    let stop : (n == 0) ≡ true = ground (arith, h) in
    ground (arith, stop, written_none m base n (buf + p))
digit_loop-written (suc d) zero m buf base n p b l h = absurd (omega arith)
digit_loop-written (suc d) (suc left) m buf base n p b l h =
    let go : (n == 0) ≡ false = ground (arith, h.0, one-le-pow d base (omega arith)) in
    let m' = store8 m (buf + p) (digit_char (n % base)) in
    let rest =
      digit_loop-written d left m' buf base (n / base) (p + 1) b (omega arith)
        (HasDigits-div base n d b h) in
    let place : buf + (p + 1) ≡ buf + p + 1 = omega arith in
    let count : p + 1 + d ≡ p + suc d = omega arith in
    rw (go, digit_loop) (rest ∙ rw (place, count, written_first m base n (buf + p) d) refl)

-- The buffer that ntos leaves: the digits from the first to the last, zeros behind them up to and at
-- `length`, and nothing changed elsewhere.
abbrev pub printed : Mem → ℕ → ℕ → ℕ → ℕ → ℕ → Mem
printed m base n buf d length x =
    if leb buf x && ltb x (buf + d)
    then digit_char (n / base ^ (d - 1 - (x - buf)) % base)
    else if leb buf x && leb x (buf + length)
    then 0
    else m x

cleared :
    (m : Mem) (buf length : ℕ)
    → clear_buffer m buf length false ≡ (λ x. if leb buf x && leb x (buf + length) then 0 else m x)
unfolding clear_buffer store8
cleared m buf length =
    ap (λ (o : Mem). store8 o (buf + length) 0) (kmemset-filled m buf 0 length) ∙ fun_ext λ x. at x
  where
    at :
        (x : ℕ)
        → store8 (filled m buf 0 length) (buf + length) 0 x
          ≡ (if leb buf x && leb x (buf + length) then 0 else m x)
    at x = ground arith

mirrored-printed :
    (m : Mem) (base n buf d length : ℕ)
    → 0 < d
    → d ≤ length
    → mirrored
        (written (λ x. if leb buf x && leb x (buf + length) then 0 else m x) base n buf d)
        buf
        d
      ≡ printed m base n buf d length
mirrored-printed m base n buf d length some_digit fits = fun_ext λ x. at x
  where
    at :
        (x : ℕ)
        → mirrored
            (written (λ x. if leb buf x && leb x (buf + length) then 0 else m x) base n buf d)
            buf
            d
            x
          ≡ printed m base n buf d length x
    at x = elim (Bool-cases (leb buf x && ltb x (buf + d))) [
      | inl inside ↦
          let k : buf + (d - 1 - (x - buf)) - buf ≡ d - 1 - (x - buf) = omega arith in
          ground (arith, inside, ap (λ (t : ℕ). digit_char (n / base ^ t % base)) k)
      | inr outside ↦ ground (arith, outside)
    ]

some_number : (base n d : ℕ) → 2 ≤ base → HasDigits base n d → 0 < d → 0 < n
some_number base n zero b h l = absurd (omega arith)
some_number base n (suc d) b h l = omega (arith, h.0, one-le-pow d base (omega arith))

-- An unsigned number that is not 0, has fewer digits than the `length` bytes of the buffer and is in
-- a base of 2 or more is printed without padding, in a memory of bytes and at a pointer that is not
-- null: its digits in order, then zeros up to the end of the buffer and one more in the byte right
-- behind its end; all other bytes stay as they are.
pub ntos-printed :
    (m : Mem) (buf i base length d : ℕ)
    → IsBytes m
    → 0 < buf
    → 2 ≤ base
    → HasDigits base i d
    → 0 < d
    → d < length
    → ntos m buf i base length true false ≡ (printed m base i buf d length, str_ok)
unfolding ntos
ntos-printed m buf i base length d bytes pointer b h some_digit fits = ground (
  arith,
  positive,
  digits,
  turned,
  mirrored-printed m base i buf d length some_digit (omega arith),
)
  where
    positive : 0 < i
    positive = some_number base i d b h some_digit

    blank : Mem
    blank x = if leb buf x && leb x (buf + length) then 0 else m x

    digits :
        digit_loop length (clear_buffer m buf length false) buf base i 0
        ≡ (written blank base i buf d, d)
    digits =
        ap (λ (o : Mem). digit_loop length o buf base i 0) (cleared m buf length)
        ∙ digit_loop-written d length blank buf base i 0 b (omega arith) h
        ∙ ground arith

    written_bytes : IsBytes (written blank base i buf d)
    written_bytes a = ground (arith, bytes a, digit_char-small (i / base ^ (a - buf) % base))

    turned :
        reverse (written blank base i buf d) buf d
        ≡ reversed (mirrored (written blank base i buf d) buf d)
    turned = reverse-mirrored (written blank base i buf d) buf d written_bytes pointer some_digit

store_sign : (m : Mem) (a : ℕ) → store8 m (a + 0) b'-' ≡ (λ x. if x == a then b'-' else m x)
unfolding store8
store_sign m a = fun_ext λ x. at x
  where
    at : (x : ℕ) → store8 m (a + 0) b'-' x ≡ (if x == a then b'-' else m x)
    at x = ground arith

mirrored_one : (m : Mem) (a : ℕ) → mirrored m a 1 ≡ m
mirrored_one m a = fun_ext λ x. at x
  where
    at : (x : ℕ) → mirrored m a 1 x ≡ m x
    at x = elim (Bool-cases (x == a)) [
      | inl here ↦
          let e : x ≡ a = ground arith in
          let k : a + (1 - 1 - (x - a)) ≡ x = omega arith in ground (arith, here, ap m k)
      | inr there ↦ ground (arith, there)
    ]

-- A negative number is printed as its sign alone: the minus, then zeros up to the end. The buffer has
-- room for two bytes, and there is no padding.
pub ntos-negative :
    (m : Mem) (buf i base length : ℕ)
    → IsBytes m
    → 0 < buf
    → 2 ≤ base
    → 2 ^ 63 ≤ i
    → 1 < length
    → ntos m buf i base length false false ≡ (
      (λ x. if x == buf then b'-' else if leb buf x && leb x (buf + length) then 0 else m x),
      str_ok,
    )
unfolding ntos
ntos-negative m buf i base length bytes pointer b negative fits =
    ground (arith, sign, digits, turned, whole)
  where
    sign : leb (2 ^ 63) i ≡ true
    sign = ground arith

    blank : Mem
    blank x = if leb buf x && leb x (buf + length) then 0 else m x

    signed : Mem
    signed x = if x == buf then b'-' else blank x

    digits : digit_loop length (clear_buffer m buf length false) buf base 0 0 ≡ (blank, 0)
    digits =
        ap (λ (o : Mem). digit_loop length o buf base 0 0) (cleared m buf length)
        ∙ digit_loop-written 0 length blank buf base 0 0 b (omega arith) refl
        ∙ ap (λ (o : Mem). (o, 0)) (written_none blank base 0 (buf + 0))

    signed_bytes : IsBytes signed
    signed_bytes a = ground (arith, bytes a)

    stored : store8 blank (buf + 0) b'-' ≡ signed
    stored = store_sign blank buf

    turned : reverse (store8 blank (buf + 0) b'-') buf 1 ≡ reversed (mirrored signed buf 1)
    turned =
        ap (λ (o : Mem). reverse o buf 1) stored
        ∙ reverse-mirrored signed buf 1 signed_bytes pointer (omega arith)

    whole : mirrored signed buf 1 ≡ signed
    whole = mirrored_one signed buf
