-- ===== src/Mm/Pmm/Settled.antt =====
-- _fix_memtags runs until nothing changes: then no tag is empty, and no tag touches a later one
-- that starts behind it.
use limix.Base.{
  ℕ, zero, suc, ◌+◌, ◌≤◌, ◌<◌, ◌≡◌, refl, ap, ◌∙◌, arith, ◌==◌, Bool-cases, inl, inr, List, [], ◌∷◌,
  length, ◌⊎◌, ==_iff,
}
use limix.Mm.Pmm.{
  MemoryTag, merged, drop_empty, merge_into, merge_all, fix_pass, fix_rounds, fix_memtags,
}

-- `u`, listed behind `t`, starts below it or leaves a gap behind it.
abbrev pub Apart : MemoryTag → MemoryTag → Type 0
Apart t u = (u.start_index < t.start_index) ⊎ (t.start_index + t.length < u.start_index)

abbrev pub AllApart : MemoryTag → List MemoryTag → Type 0
AllApart t [] = Unit {0}
AllApart t (u ∷ us) = Apart t u × AllApart t us

abbrev pub Scattered : List MemoryTag → Type 0
Scattered [] = Unit {0}
Scattered (t ∷ ts) = AllApart t ts × Scattered ts

abbrev pub NoEmpty : List MemoryTag → Type 0
NoEmpty [] = Unit {0}
NoEmpty (t ∷ ts) = (0 < t.length) × NoEmpty ts

pub record Settled (ts : List MemoryTag) : Type 0 where
  pub no_empty : NoEmpty ts
  pub scattered : Scattered ts

length-drop_empty : (ts : List MemoryTag) → length (drop_empty ts) ≤ length ts
unfolding drop_empty
length-drop_empty [] = omega arith
length-drop_empty (t ∷ ts) = ground (arith, length-drop_empty ts)

drop_empty_still :
    (ts : List MemoryTag) → length (drop_empty ts) ≡ length ts → NoEmpty ts × (drop_empty ts ≡ ts)
unfolding drop_empty
drop_empty_still [] e = (tt, refl)
drop_empty_still (t ∷ ts) e = ground (arith, length-drop_empty ts, drop_empty_still ts)

length-merge_into : (us : List MemoryTag) (t : MemoryTag) → length (merge_into t us).1 ≤ length us
unfolding merge_into
length-merge_into [] t = omega arith
length-merge_into (u ∷ us) t =
    ground (arith, length-merge_into us t, length-merge_into us (merged t u))

merge_into_still :
    (us : List MemoryTag) (t : MemoryTag)
    → length (merge_into t us).1 ≡ length us
    → AllApart t us × (merge_into t us ≡ (t, us))
unfolding merge_into
merge_into_still [] t e = (tt, refl)
merge_into_still (u ∷ us) t e =
    ground (arith, length-merge_into us (merged t u), merge_into_still us t)

length-merge_all : (fuel : ℕ) (ts : List MemoryTag) → length (merge_all fuel ts) ≤ length ts
unfolding merge_all
length-merge_all zero ts = omega arith
length-merge_all (suc fuel) [] = omega arith
length-merge_all (suc fuel) (t ∷ ts) =
    omega (arith, length-merge_all fuel (merge_into t ts).1, length-merge_into ts t)

merge_all_still :
    (fuel : ℕ) (ts : List MemoryTag)
    → length ts ≤ fuel
    → length (merge_all fuel ts) ≡ length ts
    → Scattered ts × (merge_all fuel ts ≡ ts)
unfolding merge_all
merge_all_still zero [] h e = (tt, refl)
merge_all_still zero (t ∷ ts) h e = absurd (omega arith)
merge_all_still (suc fuel) [] h e = (tt, refl)
merge_all_still (suc fuel) (t ∷ ts) h e =
    let (apart, is) =
      merge_into_still ts t
        (omega (arith, length-merge_all fuel (merge_into t ts).1, length-merge_into ts t)) in
    let rest : (merge_into t ts).1 ≡ ts = ap (λ p. p.1) is in
    let e' : length (merge_all fuel ts) ≡ length ts =
      (rw (← rest) (omega (arith, e, ap length rest))) in
    let (scattered, still) = merge_all_still fuel ts (omega arith) e' in
    ((apart, scattered), cc (is, still))

length-fix_pass : (ts : List MemoryTag) → length (fix_pass ts) ≤ length ts
unfolding fix_pass
length-fix_pass ts =
    omega (arith, length-merge_all (length (drop_empty ts)) (drop_empty ts), length-drop_empty ts)

-- A round that removes no tag changes nothing.
fix_pass_still :
    (ts : List MemoryTag) → length (fix_pass ts) ≡ length ts → Settled ts × (fix_pass ts ≡ ts)
unfolding fix_pass
fix_pass_still ts e =
    let kept = drop_empty ts in
    let short = length-merge_all (length kept) kept in
    let (full, is) = drop_empty_still ts (omega (arith, short, e, length-drop_empty ts)) in
    let (scattered, still) =
      merge_all_still (length kept) kept (omega arith) (omega (arith, e, ap length is)) in
    (record { no_empty = full; scattered = rw is at scattered }, still ∙ is)

fix_rounds-Settled :
    (fuel : ℕ) (ts : List MemoryTag) → length ts < fuel → Settled (fix_rounds fuel ts)
unfolding fix_rounds
fix_rounds-Settled zero ts h = absurd (omega arith)
fix_rounds-Settled (suc fuel) ts h = elim (Bool-cases (length (fix_pass ts) == length ts)) [
  | inl quiet ↦
      let (settled, still) = fix_pass_still ts ((==_iff _ _).0 quiet) in
      rw (quiet, fix_rounds) (rw still settled)
  | inr changed ↦
      rw (changed, fix_rounds)
        (fix_rounds-Settled fuel (fix_pass ts) (ground (arith, length-fix_pass ts)))
]

-- _fix_memtags leaves a list without empty tags, in which each tag starts below any earlier one or
-- leaves a gap behind it.
pub fix_memtags-Settled : (ts : List MemoryTag) → Settled (fix_memtags ts)
unfolding fix_memtags
fix_memtags-Settled ts = fix_rounds-Settled (length ts + 1) ts (omega arith)
