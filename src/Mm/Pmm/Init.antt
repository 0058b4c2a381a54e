-- ===== src/Mm/Pmm/Init.antt =====
-- pmm_init of kernel/src/mm/pmm.c: the free list from the boot loader's memory map.
-- The entries are those of the Limine memory map response: a base, a length and a type.
pub mod Sound
use limix.Base.{
  ℕ, ◌+◌, ◌-◌, ◌*◌, ◌/◌, ◌%◌, ◌^◌, ltb, leb, ◌==◌, ◌&&◌, if◌then◌else◌, Bool, List, [], ◌∷◌, Option,
  none, some,
}
use limix.Mm.Pmm.{MemoryTag, max_tags, mark_pages, free_pages}

pub record Entry : Type 0 where
  pub base : ℕ
  pub length : ℕ
  pub type : ℕ

-- LIMINE_MEMMAP_USABLE
abbrev pub is_usable : Entry → Bool
is_usable e = e.type == 0

-- `MAX_TAGS * sizeof(MemoryTag)`
abbrev pub memory_tag_list_size : ℕ
memory_tag_list_size = max_tags * 16

-- `fit->length -= memory_tag_list_size; fit->length = (fit->length >> 12) << 12;`
abbrev pub shrink : Entry → Entry
shrink e = record e { length = (e.length - memory_tag_list_size) / 2 ^ 12 * 2 ^ 12 }

-- The first usable entry that can hold the tags is cut short: where the tags begin, and the map.
unfoldable pub place_tags : List Entry → Option (ℕ × List Entry)
place_tags [] = none
place_tags (e ∷ es) =
    let next : Option (ℕ × List Entry) = elim (place_tags es) [
      | none ↦ none
      | some (a, es') ↦ some (a, e ∷ es')
    ] in
    if is_usable e && leb memory_tag_list_size e.length
    then some (e.base + (shrink e).length, shrink e ∷ es)
    else next

-- `mark_pages((void *)end_last, (e->base - end_last) >> 12)` where a gap precedes the entry.
unfoldable pub mark_gap : ℕ → Entry → List MemoryTag → Option (List MemoryTag)
mark_gap end_last e ts =
    if e.base == end_last
    then some ts
    else mark_pages end_last ((e.base + 2 ^ 64 - end_last) % 2 ^ 64 / 2 ^ 12) ts

unfoldable pub add_entry : Entry → List MemoryTag → Option (List MemoryTag)
add_entry e ts =
    if is_usable e
    then free_pages (e.base / 2 ^ 12 * 2 ^ 12) (e.length / 2 ^ 12) ts
    else mark_pages (e.base / 2 ^ 12 * 2 ^ 12) (e.length / 2 ^ 12) ts

-- The loop that marks memory.
unfoldable pub add_entries : ℕ → List Entry → List MemoryTag → Option (List MemoryTag)
add_entries end_last [] ts = some ts
add_entries end_last (e ∷ es) ts = elim (mark_gap end_last e ts) [
  | none ↦ none
  | some ts' ↦ elim (add_entry e ts') [
    | none ↦ none
    | some ts'' ↦ add_entries (e.base + e.length) es ts''
  ]
]

-- `memory_size = max(memory_size, e->base + e->length)` over the map.
unfoldable pub memory_end : ℕ → List Entry → ℕ
memory_end size [] = size
memory_end size (e ∷ es) =
    memory_end (if ltb size (e.base + e.length) then e.base + e.length else size) es

-- What pmm_init leaves behind; `tags_at` is the physical address of the array of tags.
pub record Pmm : Type 0 where
  pub memory_size : ℕ
  pub tags_at : ℕ
  pub tags : List MemoryTag

-- The response is `none` where the boot loader gave none.
unfoldable pub pmm_init : Option (List Entry) → Option Pmm
unfolding place_tags add_entries
pmm_init none = none
pmm_init (some es) = elim (place_tags es) [
  | none ↦ none
  | some (at, es') ↦ elim (add_entries 0 es' []) [
    | none ↦ none
    | some ts ↦ some (record { memory_size = memory_end 0 es; tags_at = at; tags = ts })
  ]
]
