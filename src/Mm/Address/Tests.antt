-- ===== src/Mm/Address/Tests.antt =====
-- mm_fix at the first page of the upper half.
use limix.Base.{◌≡◌, refl}
use limix.Mm.Address.{mm_fix}

upper : mm_fix 0x0000_8000_0000_1000 ≡ 0xffff_8000_0000_1000
unfolding mm_fix
upper = refl
