-- ===== src/Libk/Strings/Tests.antt =====
-- The theorems about strings at a memory that holds "ab" and "abc".
use limix.Base.{ℕ, ◌≡◌, refl, true, false, arith, ◌==◌, if◌then◌else◌, List, [], ◌∷◌}
use limix.Libk.Memory.{Mem, IsBytes}
use limix.Libk.Strings.Text.{Text}
use limix.Libk.Strings.Ntos.{str_ok, ntos}
use limix.Libk.Strings.Digits.{printed, ntos-printed}

abbrev ab : List ℕ
ab = 97 ∷ 98 ∷ []

abbrev abc : List ℕ
abc = 97 ∷ 98 ∷ 99 ∷ []

abbrev strings : Mem
strings x =
    if x == 100
    then 97
    else if x == 101
    then 98
    else if x == 200
    then 97
    else if x == 201
    then 98
    else if x == 202
    then 99
    else 0

strings-IsBytes : IsBytes strings
strings-IsBytes a = ground arith

at_100 : Text strings 100 ab
at_100 = (refl, omega arith, (refl, omega arith, refl))

at_200 : Text strings 200 abc
at_200 = (refl, omega arith, (refl, omega arith, (refl, omega arith, refl)))

abbrev empty : Mem
empty a = 0

empty-IsBytes : IsBytes empty
empty-IsBytes a = omega arith

-- "ff" in a buffer of four bytes.
ntos-printed_example : ntos empty 100 255 16 4 true false ≡ (printed empty 16 255 100 2 4, str_ok)
ntos-printed_example =
    ntos-printed empty 100 255 16 4 2 empty-IsBytes (omega arith) (omega arith)
      (omega arith, omega arith) (omega arith) (omega arith)
