-- ===== src/Mm/Pmm.antt =====
-- kernel/src/mm/pmm.c: free physical memory as a list of tags (first page, number of pages).
-- The first `memory_tag_count` entries of the array `memory_tags` are the list; `kmemmove` of the
-- entries behind one is its removal. Page numbers and lengths stand in i64: a negative number is its
-- 64-bit pattern, which compares as the source does unless a tag reaches from below 0 to above it.
-- The count of mark_pages is below 2 ^ 63. `none` is kernel_panic_error.
pub mod Init
pub mod Tags
pub mod Release
pub mod Valid
pub mod Request
pub mod Settled
mod Tests
use limix.Base.{
  ℕ, zero, suc, ◌+◌, ◌-◌, ◌*◌, ◌/◌, ◌%◌, ◌^◌, true, false, ◌==◌, ltb, leb, if◌then◌else◌, Option,
  none, some, List, [], ◌∷◌, ◌++◌, map, length,
}

pub record MemoryTag : Type 0 where
  pub start_index : ℕ
  pub length : ℕ

abbrev pub tag : ℕ → ℕ → MemoryTag
tag s n = record { start_index = s; length = n }

abbrev pub max_tags : ℕ
max_tags = 256

-- The first loop of _fix_memtags: tags of length 0 go.
unfoldable pub drop_empty : List MemoryTag → List MemoryTag
drop_empty [] = []
drop_empty (t ∷ ts) = let rest = drop_empty ts in if t.length == 0 then rest else t ∷ rest

-- `memtag0` after a merge: from its own start to the later of the two ends.
unfoldable pub merged : MemoryTag → MemoryTag → MemoryTag
merged t u =
    let sa = t.start_index in
    let ea = t.start_index + t.length in
    let eb = u.start_index + u.length in tag sa ((if ltb ea eb then eb else ea) - sa)

-- The inner loop over `j`, for the tag `t` at `i`: `t` as the loop leaves it, and the tags behind.
-- A merged tag is removed, and `j--; ... j++` looks at what moved into its place.
unfoldable pub merge_into : MemoryTag → List MemoryTag → MemoryTag × List MemoryTag
merge_into t [] = (t, [])
merge_into t (u ∷ us) =
    let keep : MemoryTag × List MemoryTag = (let (t', us') = merge_into t us in (t', u ∷ us')) in
    let joined = merge_into (merged t u) us in
    if ltb u.start_index t.start_index
    then keep
    else if leb u.start_index (t.start_index + t.length)
    then joined
    else keep

-- The outer loop over `i`; the fuel is the number of tags.
unfoldable pub merge_all : ℕ → List MemoryTag → List MemoryTag
merge_all zero ts = ts
merge_all (suc fuel) [] = []
merge_all (suc fuel) (t ∷ ts) = let (t', us) = merge_into t ts in t' ∷ merge_all fuel us

-- Both loops of _fix_memtags, once.
unfoldable pub fix_pass : List MemoryTag → List MemoryTag
fix_pass ts = let kept = drop_empty ts in merge_all (length kept) kept

-- `if (changes) _fix_memtags();` Each change removes a tag, so a round without one leaves as many
-- tags as it found, and one more round than tags is enough.
unfoldable pub fix_rounds : ℕ → List MemoryTag → List MemoryTag
fix_rounds zero ts = ts
fix_rounds (suc fuel) ts =
    let ts' = fix_pass ts in
    let again = fix_rounds fuel ts' in if length ts' == length ts then ts' else again

unfoldable pub fix_memtags : List MemoryTag → List MemoryTag
fix_memtags ts = fix_rounds (length ts + 1) ts

-- What the loop of mark_pages comes to: it panics, it runs through, or it changes a tag and returns.
pub data Marking : Type 0 where
  split : Marking
  passed : Marking
  marked : List MemoryTag → Marking

unfoldable pub behind : MemoryTag → Marking → Marking
behind t split = split
behind t passed = passed
behind t (marked ts) = marked (t ∷ ts)

unfoldable pub mark_loop : ℕ → ℕ → List MemoryTag → Marking
unfolding behind
mark_loop idx count [] = passed
mark_loop idx count (t ∷ ts) =
    let next = behind t (mark_loop idx count ts) in
    let ri = idx - t.start_index in
    if ltb idx t.start_index
    then next
    else if ltb (t.start_index + t.length) idx
    then next
    else if idx == t.start_index
    then marked (tag (t.start_index + count) (t.length - count) ∷ ts)
    else if idx == t.start_index + t.length
    then marked (tag t.start_index (t.length - count) ∷ ts)
    else if ltb t.length ri
    then next
    else if ltb t.length (ri + count)
    then marked (tag t.start_index ri ∷ ts)
    else split

unfoldable pub mark_pages : ℕ → ℕ → List MemoryTag → Option (List MemoryTag)
mark_pages start c ts = elim (mark_loop (start / 2 ^ 12) c ts) [
  | split ↦ none
  | passed ↦ some ts
  | marked ts' ↦ some (fix_memtags ts')
]

-- `start_index << 12` as a pointer.
abbrev pub page_address : ℕ → ℕ
page_address i = i * 2 ^ 12 % 2 ^ 64

-- `(i64)physical >> 12` keeps the sign.
unfoldable pub signed_index : ℕ → ℕ
signed_index physical =
    if ltb physical (2 ^ 63) then physical / 2 ^ 12 else physical / 2 ^ 12 + (2 ^ 64 - 2 ^ 52)

-- mm_is_virtual is `ptr > 0xffff800000000000`.
unfoldable pub free_pages : ℕ → ℕ → List MemoryTag → Option (List MemoryTag)
unfolding signed_index
free_pages physical count ts =
    if ltb 0xffff_8000_0000_0000 physical
    then none
    else if leb max_tags (length ts)
    then none
    else some (fix_memtags (ts ++ (tag (signed_index physical) count ∷ [])))

unfoldable pub free_page : ℕ → List MemoryTag → Option (List MemoryTag)
unfolding free_pages
free_page addr ts = if ltb 0xffff_8000_0000_0000 addr then none else free_pages addr 1 ts

-- Mark the block at the start of a tag and return its address.
unfoldable pub take_block : MemoryTag → ℕ → List MemoryTag → Option (ℕ × List MemoryTag)
take_block t count ts = elim (mark_pages (page_address t.start_index) count ts) [
  | none ↦ none
  | some ts' ↦ some (page_address t.start_index, ts')
]

unfoldable pub request_page : List MemoryTag → Option (ℕ × List MemoryTag)
unfolding take_block
request_page [] = none
request_page (t ∷ ts) = take_block t 1 (t ∷ ts)

-- The first tag that is long enough.
unfoldable pub find_tag : ℕ → List MemoryTag → Option MemoryTag
find_tag count [] = none
find_tag count (t ∷ ts) =
    let next = find_tag count ts in if ltb t.length count then next else some t

abbrev pub raise : ℕ → MemoryTag → MemoryTag
raise k t = tag (t.start_index + k) t.length

abbrev pub lower : ℕ → MemoryTag → MemoryTag
lower k t = tag ((t.start_index + 2 ^ 64 - k) % 2 ^ 64) t.length

-- A count from 2 ^ 63 on is negative as an i64, -k: no tag is shorter, and mark_pages lets the first
-- one begin k pages earlier. All page numbers are raised by k while _fix_memtags compares them.
-- A length and k add up to less than 2 ^ 63: beyond that the sum overflows, which C leaves undefined.
unfoldable pub grow_first : ℕ → List MemoryTag → Option (ℕ × List MemoryTag)
grow_first count [] = none
grow_first count (t ∷ ts) =
    let k = 2 ^ 64 - count in
    some (
      page_address t.start_index,
      map (lower k) (fix_memtags (tag t.start_index (t.length + k) ∷ map (raise k) ts)),
    )

-- `count` is a size_t.
unfoldable pub request_pages : ℕ → List MemoryTag → Option (ℕ × List MemoryTag)
unfolding grow_first
request_pages count ts =
    if ltb count (2 ^ 63)
    then elim (find_tag count ts) [ none ↦ none | some t ↦ take_block t count ts ]
    else grow_first count ts
