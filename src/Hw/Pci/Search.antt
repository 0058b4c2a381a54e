-- ===== src/Hw/Pci/Search.antt =====
-- The search for a device by its vendor, its number and how many of them come before.
use limix.Base.{
  ℕ, zero, suc, ◌+◌, ◌-◌, ◌%◌, ◌^◌, ◌≤◌, ◌<◌, ◌≡◌, refl, sym, ap, ◌∙◌, arith, Bool, true, false,
  not, ◌&&◌, ◌||◌, ◌==◌, ltb, if◌then◌else◌, Bool-cases, inl, inr, Option, none, some, List, [],
  ◌∷◌, length, get_elem?,
}
use limix.Hw.Pci.{Buses, Place, places}
use limix.Hw.Pci.Enumerate.{ids_at, count_loop, pci_get_count, search_loop, pci_search}

-- Every place answers, which is so without PCIe, and with it where each bus has a region.
abbrev pub Answers : List Place → Buses → Type 0
Answers [] s = Unit
Answers (p ∷ ps) s = ((ids : ℕ × ℕ) × (ids_at p s ≡ some ids)) × Answers ps s

abbrev pub is_match : ℕ → ℕ → Option (ℕ × ℕ) → Bool
is_match vendor device none = false
is_match vendor device (some (v, d)) = v == vendor && d == device

-- The places of the devices with these numbers, in order.
unfoldable pub matching : ℕ → ℕ → List Place → Buses → List Place
matching vendor device [] s = []
matching vendor device (p ∷ ps) s =
    let rest = matching vendor device ps s in
    if is_match vendor device (ids_at p s) then p ∷ rest else rest

module _ (vendor device : ℕ) (s : Buses) where
  pub matching_none : matching vendor device [] s ≡ []
  unfolding matching
  matching_none = refl

  matching_here :
      (p : Place) (ps : List Place) (v d : ℕ)
      → ids_at p s ≡ some (v, d)
      → (v == vendor && d == device) ≡ true
      → matching vendor device (p ∷ ps) s ≡ p ∷ matching vendor device ps s
  unfolding matching
  matching_here p ps v d e m = rw (e, m) refl

  pub matching_other :
      (p : Place) (ps : List Place) (v d : ℕ)
      → ids_at p s ≡ some (v, d)
      → (v == vendor && d == device) ≡ false
      → matching vendor device (p ∷ ps) s ≡ matching vendor device ps s
  unfolding matching
  matching_other p ps v d e m = rw (e, m) refl

  count_loop-length :
      (ps : List Place) (c : ℕ)
      → Answers ps s
      → c + length (matching vendor device ps s) < 2 ^ 16
      → count_loop vendor device ps c s ≡ some (c + length (matching vendor device ps s))
  unfolding count_loop
  count_loop-length [] c a few = rw matching_none (ap some (omega arith))
  count_loop-length (p ∷ ps) c (((v, d), e), a) few =
      elim (Bool-cases (v == vendor && d == device)) [
        | inl m ↦
            let t : (not (v == vendor) || not (d == device)) ≡ false = ground (arith, m) in
            let h = ap length (matching_here p ps v d e m) in
            let wraps : (c + 1) % 2 ^ 16 ≡ c + 1 = omega (arith, h) in
            rw (count_loop, e, t, wraps)
              (count_loop-length ps (c + 1) a (omega (arith, h)) ∙ ap some (omega (arith, h)))
        | inr m ↦
            let t : (not (v == vendor) || not (d == device)) ≡ true = ground (arith, m) in
            let h = ap length (matching_other p ps v d e m) in
            rw (count_loop, e, t)
              (count_loop-length ps c a (omega (arith, h)) ∙ ap some (omega (arith, h)))
      ]

  search_loop-matching :
      (number : ℕ) (ps : List Place) (c : ℕ)
      → Answers ps s
      → c ≤ number
      → c + length (matching vendor device ps s) < 2 ^ 16
      → search_loop vendor device number ps c s
        ≡ some (get_elem? (matching vendor device ps s) (number - c))
  unfolding search_loop
  search_loop-matching number [] c a l few = rw matching_none refl
  search_loop-matching number (p ∷ ps) c (((v, d), e), a) l few =
      elim (Bool-cases (v == vendor && d == device)) [
        | inl m ↦
            let t : (not (v == vendor) || not (d == device)) ≡ false = ground (arith, m) in
            let q = matching_here p ps v d e m in
            let h = ap length q in
            let wraps : (c + 1) % 2 ^ 16 ≡ c + 1 = omega (arith, h) in
            elim (Bool-cases (c == number)) [
              | inl r ↦
                  let z : number - c ≡ 0 = ground arith in rw (search_loop, e, t, r, q, z) refl
              | inr r ↦
                  let z : number - c ≡ suc (number - (c + 1)) = ground (arith, r, l) in
                  rw (search_loop, e, t, r, q, z, wraps)
                    (search_loop-matching number ps (c + 1) a (ground (arith, r, l))
                      (omega (arith, h)))
            ]
        | inr m ↦
            let t : (not (v == vendor) || not (d == device)) ≡ true = ground (arith, m) in
            let q = matching_other p ps v d e m in
            rw (search_loop, e, t, q)
              (search_loop-matching number ps c a l (omega (arith, ap length q)))
      ]

  beyond : (xs : List Place) (i : ℕ) → length xs < i → get_elem? xs i ≡ none
  beyond [] i l = refl
  beyond (x ∷ xs) zero l = absurd (omega arith)
  beyond (x ∷ xs) (suc i) l = beyond xs i (omega arith)

  search_list :
      (number : ℕ) (ps : List Place)
      → Answers ps s
      → length (matching vendor device ps s) < 2 ^ 16
      → elim (count_loop vendor device ps 0 s) [
        | none ↦ none
        | some count ↦
            if ltb count number then some none else search_loop vendor device number ps 0 s
      ]
        ≡ some (get_elem? (matching vendor device ps s) number)
  search_list number ps a few =
      let found = matching vendor device ps s in
      rw (count_loop-length ps 0 a (omega arith))
        (elim (Bool-cases (ltb (0 + length found) number)) [
          | inl m ↦ rw m (ap some (sym (beyond found number (ground (arith, m)))))
          | inr m ↦
              let whole : number - 0 ≡ number = omega arith in
              rw m (
                search_loop-matching number ps 0 a (omega arith) (omega arith)
                ∙ ap (λ (i : ℕ). some (get_elem? found i)) whole)
        ])

  -- Where every place answers and fewer than 2 ^ 16 devices have the two numbers, pci_search finds the
  -- one that has `number` of them before it, in the order of bus, slot and function, and none if
  -- there are no more than `number`.
  pub pci_search-matching :
      (number : ℕ)
      → Answers places s
      → length (matching vendor device places s) < 2 ^ 16
      → pci_search vendor device number s
        ≡ some (get_elem? (matching vendor device places s) number)
  unfolding pci_search pci_get_count
  pci_search-matching number a few = search_list number places a few
