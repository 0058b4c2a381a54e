-- ===== src/Mm/Pmm/Tests.antt =====
-- The theorems about the page allocator at concrete free lists and memory maps.
use limix.Base.{
  ℕ, ◌+◌, ◌-◌, ◌*◌, ◌/◌, ◌^◌, ◌≤◌, ◌≡◌, refl, arith, List, [], ◌∷◌, none, some, ◌⊎◌, inr,
}
use limix.Mm.Pmm.{
  MemoryTag, tag, fix_memtags, mark_pages, free_pages, signed_index, request_pages, grow_first,
  find_tag, take_block, mark_loop, fix_rounds, fix_pass, drop_empty, merge_all, merge_into, merged,
  behind,
}
use limix.Mm.Pmm.Tags.{times, holds, Both, fix_memtags-Both}
use limix.Mm.Pmm.Settled.{Settled, fix_memtags-Settled}
use limix.Mm.Pmm.Valid.{IsValid}
use limix.Mm.Pmm.Request.{Taken, AllShorter, request_pages_lem}
use limix.Mm.Pmm.Release.{request-free}
use limix.Mm.Pmm.Init.{
  Entry, Pmm, pmm_init, place_tags, add_entries, mark_gap, add_entry, memory_end,
}
use limix.Mm.Pmm.Init.Sound.{usable_times, pmm_init_lem}

-- Two runs of free pages, and what is left of them after four pages went.
abbrev free_list : List MemoryTag
free_list = tag 5 3 ∷ tag 20 4 ∷ []

abbrev after_request : List MemoryTag
after_request = tag 5 3 ∷ []

free_list-IsValid : IsValid free_list
free_list-IsValid = record {
  settled = record {
    no_empty = (omega arith, (omega arith, tt));
    scattered = ((inr (omega arith), tt), (tt, tt));
  };
  disjoint = λ x. ground arith;
  bounded = λ x h. ground arith;
}

request : request_pages 4 free_list ≡ some (20 * 2 ^ 12, after_request)
unfolding request_pages find_tag take_block mark_pages mark_loop behind fix_memtags fix_rounds
    fix_pass drop_empty merge_all merge_into
request = refl

-- A list on which _fix_memtags has work to do: two runs that touch, and an empty one.
abbrev touching : List MemoryTag
touching = tag 5 3 ∷ tag 9 0 ∷ tag 8 4 ∷ []

fix : fix_memtags touching ≡ tag 5 7 ∷ []
unfolding fix_memtags fix_rounds fix_pass drop_empty merge_all merge_into merged
fix = refl

-- -1 pages: the first run begins one page earlier.
request_negative : request_pages (2 ^ 64 - 1) free_list ≡ some (5 * 2 ^ 12, tag 4 4 ∷ tag 20 4 ∷ [])
unfolding request_pages grow_first fix_memtags fix_rounds fix_pass drop_empty merge_all merge_into
request_negative = refl

request_pages_lem_example :
    (AllShorter 4 free_list × (request_pages 4 free_list ≡ none))
    ⊎ ((a : ℕ) × (ts' : List MemoryTag) × (request_pages 4 free_list ≡ some (a, ts'))
        × Taken 4 free_list a ts')
request_pages_lem_example = request_pages_lem 4 free_list (omega arith) free_list-IsValid

request-free_example :
    (us : List MemoryTag) × (free_pages (20 * 2 ^ 12) 4 after_request ≡ some us)
    × ((x : ℕ) → times x us ≡ times x free_list)
    × IsValid us
request-free_example =
    request-free 4 (20 * 2 ^ 12) free_list after_request (omega arith) free_list-IsValid request
      (omega arith) (omega arith)

fix_memtags-Both_example : Both 9 touching (fix_memtags touching)
fix_memtags-Both_example = fix_memtags-Both touching 9

fix_memtags-Settled_example : Settled (fix_memtags touching)
fix_memtags-Settled_example = fix_memtags-Settled touching

-- A memory map with a reserved entry between two usable ones.
abbrev memory_map : List Entry
memory_map =
    record { base = 0; length = 0x8000; type = 0 }
    ∷ record { base = 0x8000; length = 0x2000; type = 1 }
    ∷ record { base = 0x10000; length = 0x4000; type = 0 }
    ∷ []

abbrev started : Pmm
started = record { memory_size = 0x14000; tags_at = 0x7000; tags = tag 0 6 ∷ tag 0x10 4 ∷ [] }

-- The gap that the tags themselves leave is marked too, which costs the page before it.
start : pmm_init (some memory_map) ≡ some started
unfolding pmm_init place_tags add_entries mark_gap add_entry memory_end mark_pages mark_loop behind
    free_pages signed_index fix_memtags fix_rounds fix_pass drop_empty merge_all merge_into
start = refl

pmm_init_lem_example :
    times 7 (started.tags) + holds (tag (started.tags_at / 2 ^ 12) 1) 7 ≤ usable_times 7 memory_map
pmm_init_lem_example = pmm_init_lem memory_map started 7 (omega arith) start
