-- ===== src/Config/Lookup.antt =====
-- What a write to one variable does to lookups.
use limix.Base.{ℕ, ◌≡◌, refl, arith, false, ◌==◌, [], ◌∷◌, none, some}
use limix.Config.{
  ConfigPath, ConfigVariable, Variables, no_type, config_resolve, update, assign, insert,
}

-- A write that keeps the path.
abbrev pub KeepsPath : (ConfigVariable → ConfigVariable) → Type 0
KeepsPath f = (v : ConfigVariable) → (f v).path ≡ v.path

pub assign-KeepsPath : (ty : ℕ) (new : ℕ → ℕ) → KeepsPath (assign ty new)
unfolding assign
assign-KeepsPath ty new v = ground arith

pub config_resolve-update :
    (path : ConfigPath) (f : ConfigVariable → ConfigVariable) (vs : Variables) (v : ConfigVariable)
    → KeepsPath f
    → config_resolve path vs ≡ some v
    → config_resolve path (update path f vs) ≡ some (f v)
unfolding config_resolve update
config_resolve-update path f [] v keeps e = ground (arith, e)
config_resolve-update path f (c ∷ cs) v keeps e =
    ground (arith, e, keeps c, config_resolve-update path f cs v keeps)

pub config_resolve-update_other :
    (path q : ConfigPath) (f : ConfigVariable → ConfigVariable) (vs : Variables)
    → KeepsPath f
    → (path == q) ≡ false
    → config_resolve q (update path f vs) ≡ config_resolve q vs
unfolding config_resolve update
config_resolve-update_other path q f [] keeps ne = refl
config_resolve-update_other path q f (c ∷ cs) keeps ne =
    ground (arith, keeps c, config_resolve-update_other path q f cs keeps ne)

pub config_resolve-path :
    (path : ConfigPath) (vs : Variables) (v : ConfigVariable)
    → config_resolve path vs ≡ some v
    → v.path ≡ path
unfolding config_resolve
config_resolve-path path [] v e = ground (arith, e)
config_resolve-path path (c ∷ cs) v e = ground (arith, e, config_resolve-path path cs v)

module _ (leftover : Variables) (junk : ℕ) where
  pub config_resolve-insert :
      (path : ConfigPath) (v : ConfigVariable) (vs : Variables)
      → config_resolve path (v ∷ vs) ≡ none
      → config_resolve path (insert leftover junk path (v ∷ vs))
        ≡ some (record { path = path; type = no_type; value = junk })
  unfolding config_resolve insert
  config_resolve-insert path v vs e = ground (arith, e)

  pub config_resolve-insert_other :
      (path q : ConfigPath) (v : ConfigVariable) (vs : Variables)
      → (path == q) ≡ false
      → config_resolve q (insert leftover junk path (v ∷ vs)) ≡ config_resolve q (v ∷ vs)
  unfolding config_resolve insert
  config_resolve-insert_other path q v vs ne = ground (arith, ne)
