-- ===== src/Libk/Printing.antt =====
-- libk/src/printing/kvprintf.c: kvfprintf, over a growing buffer. Memory for the buffer is at hand, and
-- krealloc keeps its bytes; a write past its end, or past that of a local array, is an outcome. The
-- arguments are those of the call, in order.
pub mod Format
mod Tests
use limix.Base.{
  ℕ, zero, suc, ◌+◌, Bool, true, false, not, ◌||◌, ◌==◌, ltb, leb, if◌then◌else◌, List, [], ◌∷◌,
  ◌++◌, length,
}
use limix.Libk.Memory.{Mem, kmemset}
use limix.Libk.Strings.Ntos.{ntos}

-- An argument: a number, in 64 bits, or the bytes of a string.
pub data Argument : Type 0 where
  number : ℕ → Argument
  string : List ℕ → Argument

-- The bytes of `r` up to `rl`, and `dl`.
pub record Buffer : Type 0 where
  pub bytes : List ℕ
  pub dl : ℕ

pub data Printed : Type 0 where
  printed : Buffer → Printed
  overrun : Printed
  bad_argument : Printed

-- The loop of _string_op; one round for each missing byte is enough.
unfoldable pub grow : ℕ → ℕ → ℕ → ℕ
grow zero sl dl = dl
grow (suc fuel) sl dl = elim (ltb dl (sl + 4)) [ true ↦ grow fuel sl (dl + 16) | false ↦ dl ]

abbrev pub string_op : ℕ → ℕ → ℕ
string_op sl dl = grow (sl + 4) sl dl

-- A call of _string_op for `sl` bytes, and a copy to the end of the text.
unfoldable pub append : ℕ → List ℕ → Buffer → Printed
unfolding grow
append sl more b =
    let dl = string_op sl b.dl in
    let bytes = b.bytes ++ more in
    if leb (length bytes) dl then printed (record { bytes = bytes; dl = dl }) else overrun

-- The string at an address, in a block of `n` bytes.
unfoldable pub text_at : ℕ → Mem → ℕ → List ℕ
text_at zero m a = []
text_at (suc n) m a = let rest = text_at n m (a + 1) in if m a == 0 then [] else m a ∷ rest

-- What a case adds to `base` on its way through the cases below it.
abbrev pub base_of : ℕ → ℕ
base_of c =
    if c == b'l' || c == b'x'
    then 6 + (2 + (6 + 2))
    else if c == b'u' || c == b'i'
    then 2 + (6 + 2)
    else if c == b'o'
    then 6 + 2
    else 2

abbrev pub is_number : ℕ → Bool
is_number c = c == b'l' || c == b'x' || c == b'u' || c == b'i' || c == b'o' || c == b'd'

-- `sign` after the cases: it is cleared from 'u' upwards, and for base 2.
abbrev pub sign_of : ℕ → Bool
sign_of c = not (c == b'l' || c == b'x' || c == b'u' || base_of c == 2)

abbrev pub digits_of : ℕ → ℕ
digits_of base = if base == 2 then 128 else if base == 8 then 32 else if base == 10 then 30 else 16

pub data Conversion : Type 0 where
  converted : List ℕ → List Argument → Conversion
  no_case : Conversion
  mismatch : Conversion
  past_array : Conversion

abbrev pub after : Printed → (Buffer → Printed) → Printed
after (printed b) next = next b
after overrun next = overrun
after bad_argument next = bad_argument

-- The local buffer lies at `numbuf` of the memory `m`.
module _ (m : Mem) (numbuf : ℕ) where
  unfoldable pub number_text : ℕ → ℕ → List ℕ
  unfolding text_at
  number_text c i =
      let base = base_of c in
      text_at 129
        (ntos (kmemset m numbuf 0 129) numbuf i base (digits_of base) (not (sign_of c))
          (c == b'l')).0
        numbuf

  -- The switch on a character of a format: the text and the arguments that are left, or nothing for
  -- a character without a case. For a word ntos writes a 0 behind the four bytes of its array.
  unfoldable pub convert : ℕ → List Argument → Conversion
  unfolding number_text
  convert c args =
      if is_number c
      then elim args [ number i ∷ rest ↦ converted (number_text c i) rest | _ ↦ mismatch ]
      else if c == b'w'
      then elim args [ number i ∷ rest ↦ past_array | _ ↦ mismatch ]
      else if c == b's'
      then elim args [ string t ∷ rest ↦ converted t rest | _ ↦ mismatch ]
      else no_case

  -- `while (*s)`, with the format flag, and the end of the string behind it.
  unfoldable pub print_loop : Bool → List ℕ → List Argument → Buffer → Printed
  unfolding append
  print_loop format [] args b = append (length b.bytes + 2) (0 ∷ []) b
  print_loop false (c ∷ s) args b =
      let rest = print_loop false s args in
      if c == b'%'
      then print_loop true s args b
      else after (append (length b.bytes + 1 + 1) (c ∷ []) b) rest
  print_loop true (c ∷ s) args b = elim (convert c args) [
    | converted t more ↦
        after (append (length b.bytes + length t) t b) (λ b'. print_loop false s more b')
    | no_case ↦ print_loop true s args b
    | mismatch ↦ bad_argument
    | past_array ↦ overrun
  ]

  unfoldable pub kvfprintf : List ℕ → List Argument → Printed
  unfolding print_loop
  kvfprintf s args = print_loop false s args (record { bytes = []; dl = 16 })
