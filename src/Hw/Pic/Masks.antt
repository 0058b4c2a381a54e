-- ===== src/Hw/Pic/Masks.antt =====
-- The mask registers as the set of the lines that are masked.
use limix.Base.{
  ℕ, ◌-◌, ◌%◌, ◌^◌, ◌<◌, ◌≡◌, ◌≢◌, ◌⊎◌, refl, sym, ap, ◌∙◌, arith, Bool, false, not, ◌&&◌, ◌||◌,
  ◌==◌, ltb, Bool-cases, inl, inr, bit_and, bit_or,
}
use limix.Hw.Ports.{Ports}
use limix.Hw.Pic.{pic_master_data, pic_slave_data, mask_port, mask_line, pic_mask, pic_unmask}
use limix.Hw.Pic.Bits.{bit, bit-set, bit-clear, clear_small}

abbrev pub IsData : ℕ → Type 0
IsData port = (port ≡ pic_master_data) ⊎ (port ≡ pic_slave_data)

-- Controllers that are not being initialised: a data port holds a byte that reads leave alone, and a
-- write to one keeps the other.
pub record Controllers (P : Ports) : Type 1 where
  pub Ready : P.State → Type 0
  pub mask : ℕ → P.State → ℕ
  pub mask_byte : (port : ℕ) (s : P.State) → Ready s → mask port s < 256
  pub read : (port : ℕ) (s : P.State) → IsData port → Ready s → P.inb port s ≡ (mask port s, s)
  pub write :
      (port v : ℕ) (s : P.State)
      → IsData port
      → Ready s
      → v < 256
      → Ready (P.outb port v s) × (mask port (P.outb port v s) ≡ v)
  pub write_other :
      (port other v : ℕ) (s : P.State)
      → IsData port
      → IsData other
      → other ≢ port
      → Ready s
      → mask other (P.outb port v s) ≡ mask other s

module _ (P : Ports) (C : Controllers P) where
  -- Line `irq` is masked.
  abbrev pub masked : ℕ → P.State → Bool
  masked irq s = bit (mask_line irq) (C.mask (mask_port irq) s)

  mask_port-IsData : (irq : ℕ) → IsData (mask_port irq)
  mask_port-IsData irq = elim (Bool-cases (ltb irq 8)) [
    | inl e ↦ inl (rw e refl)
    | inr e ↦ inr (rw e refl)
  ]

  line_small : (irq : ℕ) → irq < 16 → mask_line irq < 8
  line_small irq l = ground (arith, l)

  -- Two lines are the same if their ports and their places are.
  same_line :
      (i j : ℕ)
      → i < 16
      → j < 16
      → mask_port j ≡ mask_port i
      → (mask_line i == mask_line j) ≡ (i == j)
  same_line i j li lj e = ground (arith, e)

  other_line : (i j : ℕ) → mask_port j ≢ mask_port i → (i == j) ≡ false
  other_line i j d = elim (Bool-cases (i == j)) [
    | inl e ↦ let q : i ≡ j = ground arith in absurd (d (ap mask_port (sym q)))
    | inr e ↦ e
  ]

  -- A write of a changed mask to the port of line `i`, seen from line `j`.
  written :
      (f : Bool → Bool → Bool) (i j v : ℕ) (s : P.State)
      → C.Ready s
      → i < 16
      → j < 16
      → v < 256
      → ((k : ℕ) → k < 8 → bit k v ≡ f (mask_line i == k) (bit k (C.mask (mask_port i) s)))
      → ((b : Bool) → f false b ≡ b)
      → masked j (P.outb (mask_port i) v s) ≡ f (i == j) (masked j s)
  written f i j v s ready li lj small changed kept =
      elim (Bool-cases (mask_port j == mask_port i)) [
        | inl e ↦
            let q : mask_port j ≡ mask_port i = ground arith in
            let (_, now) = C.write (mask_port i) v s (mask_port-IsData i) ready small in
            rw (q, now)
              (changed (mask_line j) (line_small j lj)
                ∙ ap (λ b. f b (bit (mask_line j) (C.mask (mask_port i) s)))
                    (same_line i j li lj q))
        | inr e ↦
            let d : mask_port j ≢ mask_port i = ground arith in
            rw
              (
                C.write_other (mask_port i) (mask_port j) v s (mask_port-IsData i)
                    (mask_port-IsData j) d ready,
                other_line i j d,
              )
              (sym (kept (masked j s)))
      ]

  -- While no controller is being initialised, pic_mask masks its line among the sixteen and changes
  -- no other, and pic_unmask unmasks its line and changes no other.
  pub pic_mask-masked :
      (i j : ℕ) (s : P.State)
      → C.Ready s
      → i < 16
      → j < 16
      → (masked j (pic_mask P i s) ≡ (i == j || masked j s))
        × (masked j (pic_unmask P i s) ≡ (not (i == j) && masked j s))
  unfolding pic_mask pic_unmask
  pic_mask-masked i j s ready li lj =
      let v = C.mask (mask_port i) s in
      let byte = C.mask_byte (mask_port i) s ready in
      let reads = C.read (mask_port i) s (mask_port-IsData i) ready in
      (
        ap
              (λ (q : ℕ × P.State).
                masked j (P.outb (mask_port i) (bit_or (q.0) (2 ^ mask_line i) % 256) (q.1)))
              reads
            ∙ written (λ here old. here || old) i j (bit_or v (2 ^ mask_line i) % 256) s ready li lj
                (omega arith) (λ k l. bit-set (mask_line i) k v (line_small i li) l byte)
                (λ b. refl),
        ap
              (λ (q : ℕ × P.State).
                masked j (P.outb (mask_port i) (bit_and (q.0) (255 - 2 ^ mask_line i % 256)) (q.1)))
              reads
            ∙ written (λ here old. not here && old) i j (bit_and v (255 - 2 ^ mask_line i % 256)) s
                ready li lj (clear_small (mask_line i) v (line_small i li) byte)
                (λ k l. bit-clear (mask_line i) k v (line_small i li) l byte) (λ b. refl),
      )
