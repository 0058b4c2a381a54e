-- ===== src/Mm/Pmm/Tags.antt =====
-- How often a page is in the list of tags, and what _fix_memtags does to that.
use limix.Base.{
  ℕ, zero, suc, ◌+◌, ◌≤◌, ◌<◌, ◌≡◌, refl, arith, ltb, leb, ◌==◌, ◌&&◌, Bool-cases, inl, inr,
  if◌then◌else◌, List, [], ◌∷◌, ◌++◌, length,
}
use limix.Mm.Pmm.{
  MemoryTag, drop_empty, merged, merge_into, merge_all, fix_pass, fix_rounds, fix_memtags,
}

abbrev pub holds : MemoryTag → ℕ → ℕ
holds t x = if leb t.start_index x && ltb x (t.start_index + t.length) then 1 else 0

-- The number of tags that hold page `x`: the page is free if it is not 0.
abbrev pub times : ℕ → List MemoryTag → ℕ
times x [] = 0
times x (t ∷ ts) = holds t x + times x ts

pub times-snoc :
    (x : ℕ) (ts : List MemoryTag) (t : MemoryTag)
    → times x (ts ++ (t ∷ [])) ≡ times x ts + holds t x
times-snoc x [] t = omega arith
times-snoc x (u ∷ ts) t = omega (arith, times-snoc x ts t)

-- `us` holds page `x` if `ts` does, and no more often.
pub record Both (x : ℕ) (ts us : List MemoryTag) : Type 0 where
  pub fewer : times x us ≤ times x ts
  pub kept : 0 < times x ts → 0 < times x us

same : {x : ℕ} {ts : List MemoryTag} → Both x ts ts
same = record { fewer = omega arith; kept = λ h. h }

then_Both : {x : ℕ} {ts us vs : List MemoryTag} → Both x ts us → Both x us vs → Both x ts vs
then_Both p q = record { fewer = omega (arith, p.fewer, q.fewer); kept = λ h. q.kept (p.kept h) }

Both-cons :
    {x : ℕ} {ts us : List MemoryTag} (t : MemoryTag) → Both x ts us → Both x (t ∷ ts) (t ∷ us)
Both-cons t p = record { fewer = omega (arith, p.fewer); kept = λ h. grind (arith, p.kept) }

times-drop_empty : (x : ℕ) (ts : List MemoryTag) → times x (drop_empty ts) ≡ times x ts
unfolding drop_empty
times-drop_empty x [] = refl
times-drop_empty x (t ∷ ts) = ground (arith, times-drop_empty x ts)

merged-holds :
    (t u : MemoryTag) (x : ℕ)
    → t.start_index ≤ u.start_index
    → u.start_index ≤ t.start_index + t.length
    → (holds (merged t u) x ≤ holds t x + holds u x)
      × (0 < holds t x + holds u x → 0 < holds (merged t u) x)
unfolding merged
merged-holds t u x l h = (ground arith, ground arith)

-- What the inner loop leaves.
abbrev after : MemoryTag × List MemoryTag → List MemoryTag
after (t, us) = t ∷ us

merge_into-Both :
    (us : List MemoryTag) (t : MemoryTag) (x : ℕ) → Both x (t ∷ us) (after (merge_into t us))
unfolding merge_into
merge_into-Both [] t x = same
merge_into-Both (u ∷ us) t x = elim (Bool-cases (ltb u.start_index t.start_index)) [
  | inl below ↦ rw below (keep (merge_into-Both us t x))
  | inr above ↦ elim (Bool-cases (leb u.start_index (t.start_index + t.length))) [
    | inl touch ↦
        rw (above, touch)
          (join (merge_into-Both us (merged t u) x)
            (merged-holds t u x (ground arith) (ground arith)))
    | inr apart ↦ rw (above, apart) (keep (merge_into-Both us t x))
  ]
]
  where
    keep :
        Both x (t ∷ us) (after (merge_into t us))
        → Both x (t ∷ u ∷ us) ((merge_into t us).0 ∷ u ∷ (merge_into t us).1)
    keep b = record { fewer = omega (arith, b.fewer); kept = λ h. grind (arith, b.kept) }

    join :
        Both x (merged t u ∷ us) (after (merge_into (merged t u) us))
        → (holds (merged t u) x ≤ holds t x + holds u x)
          × (0 < holds t x + holds u x → 0 < holds (merged t u) x)
        → Both x (t ∷ u ∷ us) (after (merge_into (merged t u) us))
    join b m = record { fewer = omega (arith, b.fewer); kept = λ h. grind (arith, b.kept) }

merge_all-Both : (fuel : ℕ) (ts : List MemoryTag) (x : ℕ) → Both x ts (merge_all fuel ts)
unfolding merge_all
merge_all-Both zero ts x = same
merge_all-Both (suc fuel) [] x = same
merge_all-Both (suc fuel) (t ∷ ts) x =
    then_Both (merge_into-Both ts t x)
      (Both-cons (merge_into t ts).0 (merge_all-Both fuel (merge_into t ts).1 x))

fix_pass-Both : (ts : List MemoryTag) (x : ℕ) → Both x ts (fix_pass ts)
unfolding fix_pass
fix_pass-Both ts x =
    then_Both
      (record {
        fewer = omega (arith, times-drop_empty x ts);
        kept = λ h. omega (arith, times-drop_empty x ts);
      })
      (merge_all-Both (length (drop_empty ts)) (drop_empty ts) x)

fix_rounds-Both : (fuel : ℕ) (ts : List MemoryTag) (x : ℕ) → Both x ts (fix_rounds fuel ts)
unfolding fix_rounds
fix_rounds-Both zero ts x = same
fix_rounds-Both (suc fuel) ts x = elim (Bool-cases (length (fix_pass ts) == length ts)) [
  | inl quiet ↦ rw (quiet, fix_rounds) (fix_pass-Both ts x)
  | inr changed ↦
      rw (changed, fix_rounds)
        (then_Both (fix_pass-Both ts x) (fix_rounds-Both fuel (fix_pass ts) x))
]

-- _fix_memtags loses no page and adds none, and lists no page more often than before.
pub fix_memtags-Both : (ts : List MemoryTag) (x : ℕ) → Both x ts (fix_memtags ts)
unfolding fix_memtags
fix_memtags-Both ts x = fix_rounds-Both (length ts + 1) ts x
