-- ===== src/Config/SetGet.antt =====
-- Setting a variable and reading it, or another one.
use limix.Base.{
  ℕ, ◌+◌, ◌-◌, ◌%◌, ◌<◌, ◌≡◌, refl, sym, ap, ◌∙◌, arith, true, false, ◌==◌, Bool-cases, inl, inr,
  ◌⊎◌, [], ◌∷◌, some, Option-cases,
}
use limix.Config.{
  ConfigPath, ConfigVariable, Variables, no_type, config_resolve, update, assign, config_get,
  config_get_integer, config_get_string, config_get_char, initialised, config_get_or_create,
  config_set_integer, config_set_string, config_set_char,
}
use limix.Config.Lookup.{
  assign-KeepsPath, config_resolve-update, config_resolve-update_other, config_resolve-insert,
  config_resolve-insert_other,
}

-- A variable that has not been set, or has been set to a value of type `ty`.
abbrev pub Takes : ℕ → ConfigVariable → Type 0
Takes ty v = (v.type ≡ no_type) ⊎ (v.type ≡ ty)

-- Whatever variable the path has takes a value of type `ty`.
abbrev pub Accepts : ℕ → ConfigPath → Variables → Type 0
Accepts ty path vs = (v : ConfigVariable) → config_resolve path vs ≡ some v → Takes ty v

assign-Takes :
    (ty : ℕ) (new : ℕ → ℕ) (v : ConfigVariable)
    → Takes ty v
    → ((assign ty new v).type ≡ ty) × ((assign ty new v).value ≡ new v.value)
unfolding assign
assign-Takes ty new v t = ground (arith, t)

assign_refused :
    (ty : ℕ) (new : ℕ → ℕ) (v : ConfigVariable)
    → (v.type == no_type) ≡ false
    → (v.type == ty) ≡ false
    → assign ty new v ≡ v
unfolding assign
assign_refused ty new v a b = rw (a, b) refl

module _ (leftover : Variables) (junk : ℕ) (v : ConfigVariable) (vs : Variables) where
  -- After the lookup that creates, the path has a variable that takes the value.
  created :
      (ty : ℕ) (path : ConfigPath)
      → Accepts ty path (v ∷ vs)
      → (w : ConfigVariable) × (config_resolve path
            (config_get_or_create leftover junk path (v ∷ vs))
          ≡ some w)
        × Takes ty w
  unfolding config_get_or_create initialised
  created ty path accepts = elim (Option-cases (config_resolve path (v ∷ vs))) [
    | inl e ↦ (
      record { path = path; type = no_type; value = junk },
      rw (e, config_get_or_create) (config_resolve-insert leftover junk path v vs e),
      inl refl,
    )
    | inr (w, e) ↦ (w, rw (e, config_get_or_create) e, accepts w e)
  ]

  created_other :
      (path q : ConfigPath)
      → (path == q) ≡ false
      → config_resolve q (config_get_or_create leftover junk path (v ∷ vs))
        ≡ config_resolve q (v ∷ vs)
  unfolding config_get_or_create initialised
  created_other path q ne = elim (Option-cases (config_resolve path (v ∷ vs))) [
    | inl e ↦
        rw (e, config_get_or_create) (config_resolve-insert_other leftover junk path q v vs ne)
    | inr (w, e) ↦ rw (e, config_get_or_create) refl
  ]

  written :
      (ty : ℕ) (new : ℕ → ℕ) (path : ConfigPath)
      → Accepts ty path (v ∷ vs)
      → (w : ConfigVariable) × (old : ℕ) × (config_resolve path
            (update path (assign ty new) (config_get_or_create leftover junk path (v ∷ vs)))
          ≡ some w)
        × (w.type ≡ ty)
        × (w.value ≡ new old)
  written ty new path accepts =
      let (w, e, t) = created ty path accepts in
      let (same, value) = assign-Takes ty new w t in
      (
        assign ty new w,
        w.value,
        config_resolve-update path (assign ty new) _ w (assign-KeepsPath ty new) e,
        same,
        value,
      )

  config_get-resolved :
      (A : Type 0) (ty : ℕ) (unknown : A) (read : ℕ → A) (path : ConfigPath) (us : Variables)
      (w : ConfigVariable)
      → config_resolve path us ≡ some w
      → w.type ≡ ty
      → config_get ty unknown read path us ≡ some (read w.value)
  unfolding config_get
  config_get-resolved A ty unknown read path us w e t =
      let same : (w.type == ty) ≡ true = ground arith in rw (e, same, config_get) refl

  -- Once the configuration is there, an integer that is set is read again, unless the path has a
  -- variable that was set to another type.
  pub config_get_integer-set :
      (path : ConfigPath) (i : ℕ)
      → Accepts 1 path (v ∷ vs)
      → config_get_integer path (config_set_integer leftover junk path i (v ∷ vs)) ≡ some i
  unfolding config_get_integer config_set_integer
  config_get_integer-set path i accepts =
      let (w, _, e, t, value) = written 1 (λ old. i) path accepts in
      config_get-resolved ℕ 1 0 (λ x. x) path _ w e t ∙ ap some value

  -- Once the configuration is there, a string that is set is read again, unless the path has a
  -- variable that was set to another type.
  pub config_get_string-set :
      (path : ConfigPath) (unknown s : ℕ)
      → Accepts 0 path (v ∷ vs)
      → config_get_string unknown path (config_set_string leftover junk path s (v ∷ vs)) ≡ some s
  unfolding config_get_string config_set_string
  config_get_string-set path unknown s accepts =
      let (w, _, e, t, value) = written 0 (λ old. s) path accepts in
      config_get-resolved ℕ 0 unknown (λ x. x) path _ w e t ∙ ap some value

  -- Once the configuration is there, a character below 256 that is set is read again, unless the
  -- path has a variable that was set to another type.
  pub config_get_char-set :
      (path : ConfigPath) (c : ℕ)
      → c < 256
      → Accepts 2 path (v ∷ vs)
      → config_get_char path (config_set_char leftover junk path c (v ∷ vs)) ≡ some c
  unfolding config_get_char config_set_char
  config_get_char-set path c small accepts =
      let (w, old, e, t, value) = written 2 (λ old. old - old % 256 + c % 256) path accepts in
      config_get-resolved ℕ 2 1 (λ x. x % 256) path _ w e t ∙ ap some (omega (arith, value))

  -- Once the configuration is there, setting one path leaves the variable of every other path.
  pub config_set-other :
      (path q : ConfigPath) (x : ℕ)
      → (path == q) ≡ false
      → (config_resolve q (config_set_integer leftover junk path x (v ∷ vs))
          ≡ config_resolve q (v ∷ vs))
        × (config_resolve q (config_set_string leftover junk path x (v ∷ vs))
            ≡ config_resolve q (v ∷ vs))
        × (config_resolve q (config_set_char leftover junk path x (v ∷ vs))
            ≡ config_resolve q (v ∷ vs))
  unfolding config_set_integer config_set_string config_set_char
  config_set-other path q x ne =
      let back = created_other path q ne in
      let same : (ty : ℕ) (new : ℕ → ℕ)
          → config_resolve q
              (update path (assign ty new) (config_get_or_create leftover junk path (v ∷ vs)))
            ≡ config_resolve q (v ∷ vs) =
        λ ty new.
          config_resolve-update_other path q (assign ty new) _ (assign-KeepsPath ty new) ne
          ∙ back in
      (same 1 _, same 0 _, same 2 _)

update_still :
    (path : ConfigPath) (f : ConfigVariable → ConfigVariable) (vs : Variables) (w : ConfigVariable)
    → config_resolve path vs ≡ some w
    → f w ≡ w
    → update path f vs ≡ vs
unfolding config_resolve update
update_still path f [] w e still = refl
update_still path f (c ∷ cs) w e still = elim (Bool-cases (c.path == path)) [
  | inl here ↦
      let same : c ≡ w = ground (arith, e, here) in
      rw here (ap (λ d. d ∷ cs) (ap f same ∙ still ∙ sym same))
  | inr other ↦
      rw other (ap (λ ds. c ∷ ds) (update_still path f cs w (ground (arith, e, other)) still))
]

-- Once the configuration is there, setting an integer where the first variable of the path was set
-- to another type changes nothing.
pub config_set_integer-refused :
    (leftover : Variables) (junk : ℕ) (v : ConfigVariable) (vs : Variables) (path : ConfigPath)
    (i : ℕ) (w : ConfigVariable)
    → config_resolve path (v ∷ vs) ≡ some w
    → (w.type == no_type) ≡ false
    → (w.type == 1) ≡ false
    → config_set_integer leftover junk path i (v ∷ vs) ≡ v ∷ vs
unfolding config_set_integer config_get_or_create initialised
config_set_integer-refused leftover junk v vs path i w e set other =
    rw (e, config_get_or_create)
      (update_still path (assign 1 (λ old. i)) (v ∷ vs) w e
        (assign_refused 1 (λ old. i) w set other))
