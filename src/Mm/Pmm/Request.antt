-- ===== src/Mm/Pmm/Request.antt =====
-- request_page and request_pages hand out free pages, once each.
use limix.Base.{
  ℕ, ◌+◌, ◌-◌, ◌*◌, ◌/◌, ◌^◌, ◌≤◌, ◌<◌, ◌≡◌, refl, sym, ◌∙◌, arith, ltb, Bool-cases, inl, inr, true,
  false, List, [], ◌∷◌, ◌⊎◌, none, some, Option-cases,
}
use mathlib.Core.Path.{subst}
use limix.Mm.Pmm.{
  MemoryTag, tag, marked, mark_loop, mark_pages, page_address, take_block, request_page, find_tag,
  request_pages, fix_memtags,
}
use limix.Mm.Pmm.Tags.{times, holds}
use limix.Mm.Pmm.Settled.{Apart, AllApart, Scattered, NoEmpty}
use limix.Mm.Pmm.Valid.{IsValid, times-fix_memtags, fix_memtags-IsValid}

-- The two branches of a round of request_pages.
find_tag-short :
    (count : ℕ) (t : MemoryTag) (ts : List MemoryTag)
    → ltb t.length count ≡ true
    → find_tag count (t ∷ ts) ≡ find_tag count ts
unfolding find_tag
find_tag-short count t ts short = rw short

find_tag-long :
    (count : ℕ) (t u : MemoryTag) (ts : List MemoryTag)
    → ltb t.length count ≡ false
    → find_tag count (t ∷ ts) ≡ some u
    → t ≡ u
unfolding find_tag
find_tag-long count t u ts long e = ground arith

Apart-of_find :
    (count : ℕ) (t u : MemoryTag) (ts : List MemoryTag)
    → find_tag count ts ≡ some u
    → AllApart t ts
    → Apart t u
Apart-of_find count t u [] e apart = absurd (unfold find_tag in ground (arith, e))
Apart-of_find count t u (v ∷ ts) e apart = elim (Bool-cases (ltb v.length count)) [
  | inl short ↦ Apart-of_find count t u ts (sym (find_tag-short count v ts short) ∙ e) apart.1
  | inr long ↦ subst (Apart t) (find_tag-long count v u ts long e) apart.0
]

-- The tag that is found is long enough, not empty, and in the list.
find_tag_lem :
    (count : ℕ) (t : MemoryTag) (ts : List MemoryTag)
    → NoEmpty ts
    → find_tag count ts ≡ some t
    → (count ≤ t.length) × (0 < t.length) × ((x : ℕ) → holds t x ≤ times x ts)
find_tag_lem count t [] full e = absurd (unfold find_tag in ground (arith, e))
find_tag_lem count t (u ∷ ts) full e = elim (Bool-cases (ltb u.length count)) [
  | inl short ↦
      let (long, some_page, listed) =
        find_tag_lem count t ts full.1 (sym (find_tag-short count u ts short) ∙ e) in
      (long, some_page, λ x. omega (arith, listed x))
  | inr long ↦
      subst (λ v. (count ≤ v.length) × (0 < v.length) × ((x : ℕ) → holds v x ≤ times x (u ∷ ts)))
        (find_tag-long count u t ts long e) (ground arith, full.0, λ x. omega arith)
]

-- mark_pages at the start of a tag passes the tags before it, by the gap that _fix_memtags leaves.
mark_loop-passes :
    (idx count : ℕ) (t u : MemoryTag) (ts us : List MemoryTag)
    → Apart t u
    → idx ≡ u.start_index
    → mark_loop idx count ts ≡ marked us
    → mark_loop idx count (t ∷ ts) ≡ marked (t ∷ us)
unfolding mark_loop
mark_loop-passes idx count t u ts us apart e later = ground (arith, later)

mark_loop-here :
    (count : ℕ) (t : MemoryTag) (ts : List MemoryTag)
    → mark_loop t.start_index count (t ∷ ts)
      ≡ marked (tag (t.start_index + count) (t.length - count) ∷ ts)
unfolding mark_loop
mark_loop-here count t ts = ground arith

-- What mark_loop makes of the list at a tag that find_tag has found.
abbrev Cut : ℕ → MemoryTag → List MemoryTag → List MemoryTag → Type 0
Cut count t ts us = (x : ℕ) → times x us + holds (tag t.start_index count) x ≡ times x ts

mark_loop-Cut :
    (count : ℕ) (t : MemoryTag) (ts : List MemoryTag)
    → Scattered ts
    → find_tag count ts ≡ some t
    → (us : List MemoryTag) × (mark_loop t.start_index count ts ≡ marked us) × Cut count t ts us
mark_loop-Cut count t [] apart e = absurd (unfold find_tag in ground (arith, e))
mark_loop-Cut count t (u ∷ ts) apart e = elim (Bool-cases (ltb u.length count)) [
  | inl short ↦
      let e' = sym (find_tag-short count u ts short) ∙ e in
      let (us, found, cut) = mark_loop-Cut count t ts apart.1 e' in
      (
        u ∷ us,
        mark_loop-passes t.start_index count u t ts us (Apart-of_find count u t ts e' apart.0) refl
            found,
        λ x. omega (arith, cut x),
      )
  | inr long ↦
      subst
        (λ v.
          (us : List MemoryTag) × (mark_loop v.start_index count (u ∷ ts) ≡ marked us)
          × Cut count v (u ∷ ts) us)
        (find_tag-long count u t ts long e)
        (
          tag (u.start_index + count) (u.length - count) ∷ ts,
          mark_loop-here count u ts,
          λ x. ground arith,
        )
]

-- A call that returned: `a` is the address of `c` pages that were free and are not any more, and
-- nothing else has changed.
pub record Taken (c : ℕ) (ts : List MemoryTag) (a : ℕ) (ts' : List MemoryTag) : Type 0 where
  pub page : ℕ
  pub address : a ≡ page * 2 ^ 12
  pub in_range : page + c ≤ 2 ^ 52
  pub count : (x : ℕ) → times x ts' + holds (tag page c) x ≡ times x ts
  pub valid : IsValid ts'

tag_in_range :
    (t : MemoryTag) (ts : List MemoryTag)
    → IsValid ts
    → 0 < t.length
    → ((x : ℕ) → holds t x ≤ times x ts)
    → t.start_index + t.length ≤ 2 ^ 52
tag_in_range t ts v some_page listed = elim (Bool-cases (ltb (2 ^ 52) (t.start_index + t.length))) [
  | inl beyond ↦
      let last = t.start_index + t.length - 1 in ground (arith, v.bounded last, listed last)
  | inr below ↦ ground arith
]

mark_pages-marked :
    (idx count : ℕ) (ts us : List MemoryTag)
    → idx < 2 ^ 52
    → mark_loop idx count ts ≡ marked us
    → mark_pages (page_address idx) count ts ≡ some (fix_memtags us)
unfolding mark_pages
mark_pages-marked idx count ts us low e =
    let back : page_address idx / 2 ^ 12 ≡ idx = omega arith in rw (back, e, mark_pages)

find_tag-Taken :
    (c : ℕ) (t : MemoryTag) (ts : List MemoryTag)
    → IsValid ts
    → find_tag c ts ≡ some t
    → (ts' : List MemoryTag) × (take_block t c ts ≡ some (page_address t.start_index, ts'))
      × Taken c ts (page_address t.start_index) ts'
unfolding take_block
find_tag-Taken c t ts v e =
    let (long, some_page, listed) = find_tag_lem c t ts v.settled.no_empty e in
    let (us, found, cut) = mark_loop-Cut c t ts v.settled.scattered e in
    let range = tag_in_range t ts v some_page listed in
    let once : (x : ℕ) → times x us ≤ 1 = (λ x. omega (arith, cut x, v.disjoint x)) in
    (
      fix_memtags us,
      rw (mark_pages-marked t.start_index c ts us (omega arith) found, take_block),
      record {
        page = t.start_index;
        address = omega arith;
        in_range = omega arith;
        count = λ x. omega (arith, times-fix_memtags us x (once x), cut x);
        valid = fix_memtags-IsValid us once (λ x high. omega (arith, cut x, v.bounded x high));
      },
    )

abbrev pub AllShorter : ℕ → List MemoryTag → Type 0
AllShorter c [] = Unit {0}
AllShorter c (t ∷ ts) = (t.length < c) × AllShorter c ts

find_tag-none : (c : ℕ) (ts : List MemoryTag) → find_tag c ts ≡ none → AllShorter c ts
unfolding find_tag
find_tag-none c [] e = tt
find_tag-none c (t ∷ ts) e = ground (arith, find_tag-none c ts)

found_tag :
    (c : ℕ) (ts : List MemoryTag)
    → c < 2 ^ 63
    → request_pages c ts ≡ (elim (find_tag c ts) [ none ↦ none | some t ↦ take_block t c ts ])
unfolding request_pages
found_tag c ts small = let e : ltb c (2 ^ 63) ≡ true = ground arith in rw e refl

-- On a valid free list request_pages of `c` pages, for `c` below 2 ^ 63, either finds every tag too
-- short and panics, or hands out `c` free pages and leaves a valid list without them.
pub request_pages_lem :
    (c : ℕ) (ts : List MemoryTag)
    → c < 2 ^ 63
    → IsValid ts
    → (AllShorter c ts × (request_pages c ts ≡ none))
      ⊎ ((a : ℕ) × (ts' : List MemoryTag) × (request_pages c ts ≡ some (a, ts')) × Taken c ts a ts')
request_pages_lem c ts small v = elim (Option-cases (find_tag c ts)) [
  | inl e ↦ inl (find_tag-none c ts e, found_tag c ts small ∙ rw e refl)
  | inr (t, e) ↦
      let (ts', is, taken) = find_tag-Taken c t ts v e in
      inr (page_address t.start_index, ts', found_tag c ts small ∙ rw e is, taken)
]

-- On a valid free list request_page is request_pages of one page.
pub request_page-eq : (ts : List MemoryTag) → IsValid ts → request_page ts ≡ request_pages 1 ts
unfolding request_page find_tag
request_page-eq [] v = sym (found_tag 1 [] (omega arith))
request_page-eq (t ∷ ts) v =
    let long : ltb t.length 1 ≡ false = ground (arith, v.settled.no_empty.0) in
    sym (found_tag 1 (t ∷ ts) (omega arith) ∙ rw long refl)
