-- ===== src/Libk/Printing/Format.antt =====
-- The text that a format and its arguments make.
use limix.Base.{
  ℕ, zero, suc, ◌+◌, ◌≤◌, ◌≡◌, ◌≢◌, ◌⊎◌, sym, refl, ap, arith, Bool, true, false, ◌==◌, ltb, leb,
  if◌then◌else◌, Option, none, some, Bool-cases, inl, inr, List, [], ◌∷◌, ◌++◌, length,
  length-append,
}
use mathlib.Core.Path.{subst}
use mathlib.Core.List.{append_assoc}
use limix.Libk.Memory.{Mem}
use limix.Libk.Printing.{
  Argument, Buffer, Printed, printed, grow, append, Conversion, converted, no_case, mismatch,
  past_array, convert, after, print_loop, kvfprintf,
}

grow-le : (fuel sl dl : ℕ) → sl + 4 ≤ dl + fuel → sl + 4 ≤ grow fuel sl dl
unfolding grow
grow-le zero sl dl h = omega (arith, h)
grow-le (suc fuel) sl dl h = elim (Bool-cases (ltb dl (sl + 4))) [
  | inl e ↦ rw (grow, e) (grow-le fuel sl (dl + 16) (omega (arith, h)))
  | inr e ↦ rw (grow, e) (ground (arith, e))
]

-- A text that the call of _string_op makes room for is appended.
append_fits :
    (sl : ℕ) (more : List ℕ) (b : Buffer)
    → length b.bytes + length more ≤ sl + 4
    → (dl : ℕ) × (append sl more b ≡ printed (record { bytes = b.bytes ++ more; dl = dl }))
      × (length b.bytes + length more ≤ dl)
unfolding append
append_fits sl more b fits =
    let room = grow-le (sl + 4) sl b.dl (omega arith) in
    let whole = length-append b.bytes more in
    let yes : leb (length (b.bytes ++ more)) (grow (sl + 4) sl b.dl) ≡ true =
      ground (arith, room, whole, fits) in
    (grow (sl + 4) sl b.dl, rw (append, yes) refl, omega (arith, room, fits))

-- The buffer that is printed holds the text, in a block that is long enough for it.
abbrev pub Prints : Printed → List ℕ → Type 0
Prints r text = (dl : ℕ) × (r ≡ printed (record { bytes = text; dl = dl })) × (length text ≤ dl)

after-append :
    (sl : ℕ) (more rest : List ℕ) (b : Buffer) (next : Buffer → Printed)
    → length b.bytes + length more ≤ sl + 4
    → ((b' : Buffer) → Prints (next b') (b'.bytes ++ rest))
    → Prints (after (append sl more b) next) (b.bytes ++ (more ++ rest))
after-append sl more rest b next fits go =
    let (dl, e, room) = append_fits sl more b fits in
    let assoc = append_assoc b.bytes more rest in
    rw e (subst (Prints (next (record { bytes = b.bytes ++ more; dl = dl }))) assoc (go _))

abbrev before : List ℕ → Option (List ℕ) → Option (List ℕ)
before t none = none
before t (some more) = some (t ++ more)

before-some :
    (t u : List ℕ) (o : Option (List ℕ))
    → before t o ≡ some u
    → (v : List ℕ) × (o ≡ some v) × (t ++ v ≡ u)
before-some t u none h = absurd (ground (arith, h))
before-some t u (some v) h = (v, refl, ap (λ o. elim o [ some x ↦ x | none ↦ u ]) h)

no_text : {t : List ℕ} → none ≢ some t
no_text h = ground (arith, h)

Conversion-cases :
    (v : Conversion)
    → ((t : List ℕ) × (more : List Argument) × (v ≡ converted t more))
      ⊎ ((v ≡ no_case) ⊎ ((v ≡ mismatch) ⊎ (v ≡ past_array)))
Conversion-cases (converted t more) = inl (t, more, refl)
Conversion-cases no_case = inr (inl refl)
Conversion-cases mismatch = inr (inr (inl refl))
Conversion-cases past_array = inr (inr (inr refl))

module _ (m : Mem) (numbuf : ℕ) where
  -- Nothing where a conversion is %w. Behind '%', characters without a case are passed over up to one
  -- that has one.
  unfoldable pub formatted : Bool → List ℕ → List Argument → Option (List ℕ)
  formatted format [] args = some []
  formatted false (c ∷ s) args =
      let rest = formatted false s args in
      if c == b'%' then formatted true s args else before (c ∷ []) rest
  formatted true (c ∷ s) args = elim (convert m numbuf c args) [
    | converted t more ↦ before t (formatted false s more)
    | no_case ↦ formatted true s args
    | mismatch ↦ none
    | past_array ↦ none
  ]

  abbrev run : Bool → List ℕ → List Argument → Buffer → Printed
  run format s args b = print_loop m numbuf format s args b

  -- The text with its 0.
  abbrev ended : List ℕ → List ℕ
  ended t = t ++ 0 ∷ []

  end-Prints :
      (format : Bool) (args : List Argument) (b : Buffer) (t : List ℕ)
      → formatted format [] args ≡ some t
      → Prints (run format [] args b) (b.bytes ++ ended t)
  unfolding print_loop formatted
  end-Prints format args b t h =
      let empty : [] ≡ t = ap (λ o. elim o [ some x ↦ x | none ↦ t ]) h in
      let (dl, e, room) = append_fits (length b.bytes + 2) (0 ∷ []) b (omega arith) in
      subst (λ u. Prints (run format [] args b) (b.bytes ++ ended u)) empty
        (dl, e, omega (arith, room, length-append b.bytes (0 ∷ [])))

  print_loop-formatted :
      (format : Bool) (s : List ℕ) (args : List Argument) (b : Buffer) (t : List ℕ)
      → formatted format s args ≡ some t
      → Prints (run format s args b) (b.bytes ++ ended t)
  unfolding print_loop formatted
  print_loop-formatted format [] args b t h = end-Prints format args b t h
  print_loop-formatted false (c ∷ s) args b t h = elim (Bool-cases (c == b'%')) [
    | inl e ↦ rw (print_loop, e) (print_loop-formatted true s args b t (rw (formatted, e) at h))
    | inr e ↦
        let (v, rest, whole) =
          before-some (c ∷ []) t (formatted false s args) (rw (formatted, e) at h) in
        rw (print_loop, e)
          (subst
            (λ u.
              Prints (after (append (length b.bytes + 1 + 1) (c ∷ []) b) (run false s args))
                (b.bytes ++ ended u))
            whole
            (after-append (length b.bytes + 1 + 1) (c ∷ []) (ended v) b (run false s args)
              (omega arith) (λ b'. print_loop-formatted false s args b' v rest)))
  ]
  print_loop-formatted true (c ∷ s) args b t h = elim (Conversion-cases (convert m numbuf c args)) [
    | inl (text, more, e) ↦
        let (v, rest, whole) =
          before-some text t (formatted false s more) (rw (formatted, e) at h) in
        rw (print_loop, e)
          (subst
            (λ u.
              Prints (after (append (length b.bytes + length text) text b) (run false s more))
                (b.bytes ++ ended u))
            whole
            (subst
              (λ u.
                Prints (after (append (length b.bytes + length text) text b) (run false s more))
                  (b.bytes ++ u))
              (sym (append_assoc text v (0 ∷ [])))
              (after-append (length b.bytes + length text) text (ended v) b (run false s more)
                (omega arith) (λ b'. print_loop-formatted false s more b' v rest))))
    | inr (inl e) ↦
        rw (print_loop, e) (print_loop-formatted true s args b t (rw (formatted, e) at h))
    | inr (inr (inl e)) ↦ absurd (no_text (rw (formatted, e) at h))
    | inr (inr (inr e)) ↦ absurd (no_text (rw (formatted, e) at h))
  ]

  -- Where no conversion of the format is %w and each has an argument of its kind, kvfprintf prints:
  -- its buffer holds the characters outside conversions and the texts of the conversions, in order,
  -- and a 0, and it is long enough for them. Nothing is written behind its end.
  pub kvfprintf-formatted :
      (s : List ℕ) (args : List Argument) (t : List ℕ)
      → formatted false s args ≡ some t
      → Prints (kvfprintf m numbuf s args) (t ++ 0 ∷ [])
  unfolding kvfprintf
  kvfprintf-formatted s args t h =
      print_loop-formatted false s args (record { bytes = []; dl = 16 }) t h
