-- ===== src/Mm/Pmm/Init/Sound.antt =====
-- Only memory that the map calls usable becomes free.
use limix.Base.{
  ℕ, ◌+◌, ◌-◌, ◌*◌, ◌/◌, ◌%◌, ◌^◌, ◌≤◌, ◌<◌, ◌≡◌, refl, arith, leb, ◌==◌, ◌&&◌, Bool-cases, inl,
  inr, true, false, if◌then◌else◌, List, [], ◌∷◌, ◌++◌, none, some, Option-cases,
}
use limix.Mm.Pmm.{
  MemoryTag, tag, Marking, split, passed, marked, behind, mark_loop, mark_pages, free_pages,
  signed_index, fix_memtags,
}
use limix.Mm.Pmm.Tags.{times, holds, times-snoc, fix_memtags-Both}
use limix.Mm.Pmm.Init.{
  Entry, memory_tag_list_size, shrink, is_usable, place_tags, mark_gap, add_entry, add_entries,
  pmm_init, Pmm,
}

-- How often the loop of mark_pages leaves page `x` in the list.
abbrev seen : ℕ → List MemoryTag → Marking → ℕ
seen x ts split = times x ts
seen x ts passed = times x ts
seen x ts (marked us) = times x us

seen-behind :
    (x : ℕ) (t : MemoryTag) (ts : List MemoryTag) (m : Marking)
    → seen x (t ∷ ts) (behind t m) ≡ holds t x + seen x ts m
unfolding behind
seen-behind x t ts split = refl
seen-behind x t ts passed = refl
seen-behind x t ts (marked us) = refl

-- mark_pages never adds a page, whatever the list and the block.
mark_loop-le :
    (idx count : ℕ) (ts : List MemoryTag) (x : ℕ) → seen x ts (mark_loop idx count ts) ≤ times x ts
unfolding mark_loop
mark_loop-le idx count [] x = omega arith
mark_loop-le idx count (t ∷ ts) x =
    ground (arith, mark_loop-le idx count ts x, seen-behind x t ts (mark_loop idx count ts))

mark_pages-le :
    (start c : ℕ) (ts ts' : List MemoryTag) (x : ℕ)
    → mark_pages start c ts ≡ some ts'
    → times x ts' ≤ times x ts
unfolding mark_pages
mark_pages-le start c ts ts' x = go (mark_loop (start / 2 ^ 12) c ts) (mark_loop-le _ c ts x)
  where
    go :
        (m : Marking)
        → seen x ts m ≤ times x ts
        → (elim m [ split ↦ none | passed ↦ some ts | marked us ↦ some (fix_memtags us) ])
          ≡ some ts'
        → times x ts' ≤ times x ts
    go split h e = absurd (ground arith)
    go passed h e = ground arith
    go (marked us) h e = ground (arith, (fix_memtags-Both us x).fewer)

-- Below 2 ^ 52 a tag with a negative number holds no page.
signed_tag-le :
    (start c x : ℕ)
    → x < 2 ^ 52
    → holds (tag (signed_index start) c) x ≤ holds (tag (start / 2 ^ 12) c) x
unfolding signed_index
signed_tag-le start c x low = ground arith

free_pages-le :
    (start c : ℕ) (ts ts' : List MemoryTag) (x : ℕ)
    → x < 2 ^ 52
    → free_pages start c ts ≡ some ts'
    → times x ts' ≤ times x ts + holds (tag (start / 2 ^ 12) c) x
unfolding free_pages
free_pages-le start c ts ts' x low e =
    let all = ts ++ (tag (signed_index start) c ∷ []) in
    ground (
      arith,
      (fix_memtags-Both all x).fewer,
      times-snoc x ts (tag (signed_index start) c),
      signed_tag-le start c x low,
    )

-- The pages of an entry.
abbrev pub pages : Entry → MemoryTag
pages e = tag (e.base / 2 ^ 12) (e.length / 2 ^ 12)

-- How many usable entries of the map hold page `x`.
abbrev pub usable_times : ℕ → List Entry → ℕ
usable_times x [] = 0
usable_times x (e ∷ es) = (if is_usable e then holds (pages e) x else 0) + usable_times x es

add_entry-le :
    (e : Entry) (ts ts' : List MemoryTag) (x : ℕ)
    → x < 2 ^ 52
    → add_entry e ts ≡ some ts'
    → times x ts' ≤ times x ts + (if is_usable e then holds (pages e) x else 0)
unfolding add_entry
add_entry-le e ts ts' x low =
    let at : e.base / 2 ^ 12 * 2 ^ 12 / 2 ^ 12 ≡ e.base / 2 ^ 12 = omega arith in
    elim (is_usable e)
      as (λ u.
        (if u
            then free_pages (e.base / 2 ^ 12 * 2 ^ 12) (e.length / 2 ^ 12) ts
            else mark_pages (e.base / 2 ^ 12 * 2 ^ 12) (e.length / 2 ^ 12) ts)
          ≡ some ts'
        → times x ts' ≤ times x ts + (if u then holds (pages e) x else 0)) [
          | true ↦ λ h. ground (arith, free_pages-le _ _ ts ts' x low h)
          | false ↦ λ h. omega (arith, mark_pages-le _ _ ts ts' x h)
        ]

mark_gap-le :
    (end_last : ℕ) (e : Entry) (ts ts' : List MemoryTag) (x : ℕ)
    → mark_gap end_last e ts ≡ some ts'
    → times x ts' ≤ times x ts
unfolding mark_gap
mark_gap-le end_last e ts ts' x =
    let gap = (e.base + 2 ^ 64 - end_last) % 2 ^ 64 / 2 ^ 12 in
    elim (e.base == end_last)
      as (λ b.
        (if b then some ts else mark_pages end_last gap ts) ≡ some ts' → times x ts' ≤ times x ts) [
          | true ↦ λ h. ground arith
          | false ↦ λ h. mark_pages-le end_last gap ts ts' x h
        ]

add_entries-le :
    (end_last : ℕ) (es : List Entry) (ts ts' : List MemoryTag) (x : ℕ)
    → x < 2 ^ 52
    → add_entries end_last es ts ≡ some ts'
    → times x ts' ≤ times x ts + usable_times x es
unfolding add_entries
add_entries-le end_last [] ts ts' x low h = ground arith
add_entries-le end_last (e ∷ es) ts ts' x low h = elim (Option-cases (mark_gap end_last e ts)) [
  | inl no_gap ↦ absurd (ground (arith, h))
  | inr (ts1, gap) ↦ elim (Option-cases (add_entry e ts1)) [
    | inl no_entry ↦ absurd (ground (arith, h))
    | inr (ts2, entry) ↦ omega (
      arith,
      mark_gap-le end_last e ts ts1 x gap,
      add_entry-le e ts1 ts2 x low entry,
      add_entries-le (e.base + e.length) es ts2 ts' x low (rw (gap, entry, add_entries) at h),
    )
  ]
]

-- The tags take at least one page off the end of the entry that holds them.
shrink-holds :
    (e : Entry) (x : ℕ)
    → memory_tag_list_size ≤ e.length
    → holds (pages (shrink e)) x + holds (tag ((e.base + (shrink e).length) / 2 ^ 12) 1) x
      ≤ holds (pages e) x
shrink-holds e x h =
    let first = e.base / 2 ^ 12 in
    let left = (e.length - 4096) / 2 ^ 12 in
    let at : (e.base + left * 2 ^ 12) / 2 ^ 12 ≡ first + left = omega arith in
    let len : left * 2 ^ 12 / 2 ^ 12 ≡ left = omega arith in
    let more : left + 1 ≤ e.length / 2 ^ 12 = omega arith in
    rw (at, len) (apart first left (e.length / 2 ^ 12) x more)
  where
    apart :
        (first left whole x : ℕ)
        → left + 1 ≤ whole
        → holds (tag first left) x + holds (tag (first + left) 1) x ≤ holds (tag first whole) x
    apart first left whole x h = ground arith

place_tags-le :
    (es es' : List Entry) (a x : ℕ)
    → place_tags es ≡ some (a, es')
    → usable_times x es' + holds (tag (a / 2 ^ 12) 1) x ≤ usable_times x es
unfolding place_tags
place_tags-le [] es' a x h = absurd (ground arith)
place_tags-le (e ∷ es) es' a x h =
    elim (Bool-cases (is_usable e && leb memory_tag_list_size e.length)) [
      | inl fits ↦ ground (arith, h, fits, shrink-holds e x)
      | inr small ↦ elim (Option-cases (place_tags es)) [
        | inl none_fits ↦ absurd (ground (arith, h))
        | inr ((b, rest), found) ↦ ground (arith, h, place_tags-le es rest b x found)
      ]
    ]

-- Where pmm_init returns, a page, with a number below 2 ^ 52 as all pages of 64-bit addresses, is in
-- the free list at most as often as the usable entries of the
-- memory map hold it, and the first page of the array of tags once less than that.
pub pmm_init_lem :
    (es : List Entry) (s : Pmm) (x : ℕ)
    → x < 2 ^ 52
    → pmm_init (some es) ≡ some s
    → times x s.tags + holds (tag (s.tags_at / 2 ^ 12) 1) x ≤ usable_times x es
unfolding pmm_init
pmm_init_lem es s x low h = elim (Option-cases (place_tags es)) [
  | inl no_place ↦ absurd (ground (arith, h))
  | inr ((a, es'), placed) ↦ elim (Option-cases (add_entries 0 es' [])) [
    | inl panics ↦ absurd (ground (arith, h))
    | inr (ts, added) ↦
        ground (arith, h, place_tags-le es es' a x placed, add_entries-le 0 es' [] ts x low added)
  ]
]
