-- ===== src/Mm/Pmm/Valid.antt =====
-- The invariant of the free list, and that _fix_memtags establishes it.
use limix.Base.{ℕ, ◌^◌, ◌≤◌, ◌≡◌, arith, List}
use limix.Mm.Pmm.{MemoryTag, fix_memtags}
use limix.Mm.Pmm.Tags.{times, fix_memtags-Both}
use limix.Mm.Pmm.Settled.{Settled, fix_memtags-Settled}

-- No page is listed twice, every page lies below 2 ^ 52, and _fix_memtags has nothing to do.
pub record IsValid (ts : List MemoryTag) : Type 0 where
  pub settled : Settled ts
  pub disjoint : (x : ℕ) → times x ts ≤ 1
  pub bounded : (x : ℕ) → 2 ^ 52 ≤ x → times x ts ≡ 0

-- Where no page is listed twice, _fix_memtags keeps the count of every page.
pub times-fix_memtags :
    (ts : List MemoryTag) (x : ℕ) → times x ts ≤ 1 → times x (fix_memtags ts) ≡ times x ts
times-fix_memtags ts x h =
    grind (arith, (fix_memtags-Both ts x).fewer, (fix_memtags-Both ts x).kept)

pub fix_memtags-IsValid :
    (ts : List MemoryTag)
    → ((x : ℕ) → times x ts ≤ 1)
    → ((x : ℕ) → 2 ^ 52 ≤ x → times x ts ≡ 0)
    → IsValid (fix_memtags ts)
fix_memtags-IsValid ts once low = record {
  settled = fix_memtags-Settled ts;
  disjoint = λ x. omega (arith, once x, (fix_memtags-Both ts x).fewer);
  bounded = λ x h. omega (arith, low x h, (fix_memtags-Both ts x).fewer);
}
