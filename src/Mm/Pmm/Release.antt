-- ===== src/Mm/Pmm/Release.antt =====
-- free_page and free_pages give blocks back; what mark_pages does off the start of a tag.
use limix.Base.{
  ℕ, ◌+◌, ◌-◌, ◌*◌, ◌/◌, ◌^◌, ◌≤◌, ◌<◌, ◌≡◌, ap, ◌∙◌, arith, ltb, leb, false, List, [], ◌∷◌, ◌++◌,
  none, some, length, ◌↔◌, ◌⊎◌, inl, inr,
}
use mathlib.Core.Path.{subst}
use limix.Mm.Pmm.{
  MemoryTag, tag, max_tags, fix_memtags, free_pages, signed_index, request_pages, mark_loop,
  mark_pages, fix_rounds, fix_pass, drop_empty, merge_all, merge_into,
}
use limix.Mm.Pmm.Tags.{times, holds, times-snoc}
use limix.Mm.Pmm.Valid.{IsValid, times-fix_memtags, fix_memtags-IsValid}
use limix.Mm.Pmm.Request.{Taken, request_pages_lem}

request_pages-Taken :
    (c a : ℕ) (ts ts' : List MemoryTag)
    → c < 2 ^ 63
    → IsValid ts
    → request_pages c ts ≡ some (a, ts')
    → Taken c ts a ts'
request_pages-Taken c a ts ts' small v gives = elim (request_pages_lem c ts small v) [
  | inl (short, panics) ↦ absurd (ground (arith, panics, gives))
  | inr (b, us, is, taken) ↦
      let address : b ≡ a = ground (arith, is, gives) in
      let list : us ≡ ts' = ground (arith, is, gives) in
      subst (λ (x : ℕ). Taken c ts x ts') address (subst (λ xs. Taken c ts b xs) list taken)
]

-- No page of the block is free.
abbrev pub InUse : ℕ → ℕ → List MemoryTag → Type 0
InUse p n ts = (x : ℕ) → holds (tag p n) x + times x ts ≤ 1

pub free_pages_lem :
    (p n : ℕ) (ts : List MemoryTag)
    → IsValid ts
    → p * 2 ^ 12 < 2 ^ 63
    → p + n ≤ 2 ^ 52
    → length ts < max_tags
    → InUse p n ts
    → (ts' : List MemoryTag) × (free_pages (p * 2 ^ 12) n ts ≡ some ts')
      × ((x : ℕ) → times x ts' ≡ times x ts + holds (tag p n) x)
      × IsValid ts'
unfolding free_pages
free_pages_lem p n ts v physical range room used =
    let index : signed_index (p * 2 ^ 12) ≡ p = unfold signed_index in ground arith in
    let not_virtual : ltb 0xffff_8000_0000_0000 (p * 2 ^ 12) ≡ false = ground arith in
    let fits : leb max_tags (length ts) ≡ false = ground arith in
    let all = ts ++ (tag p n ∷ []) in
    let once : (x : ℕ) → times x all ≤ 1 =
      (λ x. omega (arith, times-snoc x ts (tag p n), used x)) in
    (
      fix_memtags all,
      rw (not_virtual, fits, index),
      λ x. omega (arith, times-fix_memtags all x (once x), times-snoc x ts (tag p n)),
      fix_memtags-IsValid all once
          (λ x high. ground (arith, times-snoc x ts (tag p n), v.bounded x high)),
    )

-- On a valid free list, the pages that request_pages of fewer than 2 ^ 63 gives, at an address below
-- 2 ^ 63 and with fewer than 256 tags left, can be given back by free_pages; then the same pages are
-- free as before the request, and the list is valid.
pub request-free :
    (c a : ℕ) (ts ts' : List MemoryTag)
    → c < 2 ^ 63
    → IsValid ts
    → request_pages c ts ≡ some (a, ts')
    → a < 2 ^ 63
    → length ts' < max_tags
    → (us : List MemoryTag) × (free_pages a c ts' ≡ some us)
      × ((x : ℕ) → times x us ≡ times x ts)
      × IsValid us
request-free c a ts ts' small v gives physical room =
    let taken = request_pages-Taken c a ts ts' small v gives in
    let (us, is, count, valid) =
      free_pages_lem taken.page c ts' taken.valid (omega (arith, taken.address)) taken.in_range room
        (λ x. omega (arith, taken.count x, v.disjoint x)) in
    (
      us,
      ap (λ p. free_pages p c ts') (taken.address) ∙ is,
      λ x. omega (arith, count x, taken.count x),
      valid,
    )

-- free_pages panics exactly for an address above 0xffff800000000000 or when 256 tags or more are
-- in use.
pub free_pages-none :
    (physical n : ℕ) (ts : List MemoryTag)
    → (free_pages physical n ts ≡ none)
      ↔ ((0xffff_8000_0000_0000 < physical) ⊎ (max_tags ≤ length ts))
unfolding free_pages
free_pages-none physical n ts = (λ h. ground arith, λ h. ground arith)

-- Where the free list is a single tag of more than `c` pages that ends below 2 ^ 52, marking `c`
-- pages right behind that tag, which are not free, takes the last `c` pages of the tag out of the
-- list. `c` is positive.
pub mark_pages-behind :
    (s n c : ℕ)
    → s + n < 2 ^ 52
    → 0 < c
    → c < n
    → mark_pages ((s + n) * 2 ^ 12) c (tag s n ∷ []) ≡ some (tag s (n - c) ∷ [])
unfolding mark_pages mark_loop fix_memtags fix_rounds fix_pass drop_empty merge_all merge_into
mark_pages-behind s n c low some_page short =
    let index : (s + n) * 2 ^ 12 / 2 ^ 12 ≡ s + n = omega arith in
    rw (index, mark_pages) (ground arith)

-- Where the free list is a single tag that ends below 2 ^ 52, marking a positive number of its
-- pages that do not start with its first page panics.
pub mark_pages-inside :
    (s n i c : ℕ)
    → s + n < 2 ^ 52
    → 0 < i
    → i + c ≤ n
    → 0 < c
    → mark_pages ((s + i) * 2 ^ 12) c (tag s n ∷ []) ≡ none
unfolding mark_pages mark_loop
mark_pages-inside s n i c low off inside some_page =
    let index : (s + i) * 2 ^ 12 / 2 ^ 12 ≡ s + i = omega arith in
    rw (index, mark_pages) (ground arith)
