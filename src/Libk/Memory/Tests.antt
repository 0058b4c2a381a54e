-- ===== src/Libk/Memory/Tests.antt =====
-- The theorems about the memory functions at concrete blocks of a concrete memory.
use limix.Base.{◌%◌, ◌≡◌, arith}
use limix.Libk.Memory.{Mem, IsBytes, kmemmove}
use limix.Libk.Memory.Word.{copied}
use limix.Libk.Memory.Move.{kmemmove-copied}

-- Each byte is the low byte of its address.
abbrev ramp : Mem
ramp x = x % 256

ramp-IsBytes : IsBytes ramp
ramp-IsBytes a = omega arith

-- The blocks overlap, and the target starts below the source.
-- The blocks overlap the other way.
kmemmove-copied_example : kmemmove ramp 105 100 13 ≡ copied ramp 105 100 13
kmemmove-copied_example = kmemmove-copied ramp 105 100 13 ramp-IsBytes
