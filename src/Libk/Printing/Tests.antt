-- ===== src/Libk/Printing/Tests.antt =====
-- A format with a string and a number.
use limix.Base.{ℕ, ◌≡◌, refl, false, some, List, [], ◌∷◌, ◌++◌}
use limix.Libk.Printing.{Argument, number, string, overrun, convert, print_loop, kvfprintf}
use limix.Libk.Printing.Format.{Prints, formatted, kvfprintf-formatted}

-- "a%s%%u"
abbrev format : List ℕ
format = b'a' ∷ b'%' ∷ b's' ∷ b'%' ∷ b'%' ∷ b's' ∷ []

abbrev arguments : List Argument
arguments = string (b'b' ∷ b'c' ∷ []) ∷ string (b'd' ∷ []) ∷ []

makes_text : formatted (λ a. 0) 0x100 false format arguments ≡ some (b'a' ∷ b'b' ∷ b'c' ∷ b'd' ∷ [])
unfolding formatted convert
makes_text = refl

kvfprintf-formatted_example :
    Prints (kvfprintf (λ a. 0) 0x100 format arguments) ((b'a' ∷ b'b' ∷ b'c' ∷ b'd' ∷ []) ++ 0 ∷ [])
kvfprintf-formatted_example =
    kvfprintf-formatted (λ a. 0) 0x100 format arguments (b'a' ∷ b'b' ∷ b'c' ∷ b'd' ∷ []) makes_text

-- "%w"
word_overruns : kvfprintf (λ a. 0) 0x100 (b'%' ∷ b'w' ∷ []) (number 5 ∷ []) ≡ overrun
unfolding kvfprintf print_loop convert
word_overruns = refl
