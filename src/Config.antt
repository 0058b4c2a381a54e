-- ===== src/Config.antt =====
-- kernel/src/config/config.c: the configuration as a linked list of variables, here a list; [] is
-- the null pointer. config_init and _config_get_or_create take memory from kmalloc and leave parts
-- of it as they are: the `next` pointer of the first variable, and the value of each new one.
pub mod Lookup
pub mod SetGet
mod Tests
use limix.Base.{
  ℕ, zero, suc, ◌+◌, ◌-◌, ◌%◌, true, false, ◌==◌, if◌then◌else◌, Bool, not, List, [], ◌∷◌, Option,
  none, some,
}

-- `enum ConfigPathEnum`
abbrev pub ConfigPath : Type 0
ConfigPath = ℕ

abbrev pub config_kernel_none : ConfigPath
config_kernel_none = 0

-- `value` is the union as a 64-bit number; the character is its low byte.
pub record ConfigVariable : Type 0 where
  pub path : ConfigPath
  pub type : ℕ
  pub value : ℕ

abbrev pub Variables : Type 0
Variables = List ConfigVariable

-- The type of a variable that has not been set.
abbrev pub no_type : ℕ
no_type = 0xff

unfoldable pub config_resolve : ConfigPath → Variables → Option ConfigVariable
config_resolve path [] = none
config_resolve path (c ∷ cs) =
    let next = config_resolve path cs in if c.path == path then some c else next

-- A write through the pointer that _config_resolve returns.
unfoldable pub update : ConfigPath → (ConfigVariable → ConfigVariable) → Variables → Variables
update path f [] = []
update path f (c ∷ cs) =
    let rest = update path f cs in if c.path == path then f c ∷ cs else c ∷ rest

-- The check of the type in the three setters, and the write of the value.
unfoldable pub assign : ℕ → (ℕ → ℕ) → ConfigVariable → ConfigVariable
assign ty new v =
    if v.type == no_type
    then record v { type = ty; value = new v.value }
    else if v.type == ty
    then record v { value = new v.value }
    else v

-- The three getters: `none` is the read through a null pointer that they make for a path without a
-- variable.
unfoldable pub config_get : {A : Type 0} → ℕ → A → (ℕ → A) → ConfigPath → Variables → Option A
config_get ty unknown read path vs = elim (config_resolve path vs) [
  | none ↦ none
  | some v ↦ some (if not (v.type == ty) then unknown else read v.value)
]

unfoldable pub config_get_integer : ConfigPath → Variables → Option ℕ
unfolding config_get
config_get_integer = config_get 1 0 (λ x. x)

-- `unknown` is the address of "<UNKNOWN>".
unfoldable pub config_get_string : ℕ → ConfigPath → Variables → Option ℕ
unfolding config_get
config_get_string unknown = config_get 0 unknown (λ x. x)

unfoldable pub config_get_char : ConfigPath → Variables → Option ℕ
unfolding config_get
config_get_char = config_get 2 1 (λ x. x % 256)

unfoldable pub config_has : ConfigPath → Variables → Bool
config_has path vs = elim (config_resolve path vs) [ none ↦ false | some v ↦ true ]

-- `leftover` is what the `next` pointer that config_init does not set leads to, `junk` the value
-- of a variable that has just been made.
module _ (leftover : Variables) (junk : ℕ) where
  unfoldable pub config_init : Variables
  config_init = record { path = config_kernel_none; type = no_type; value = junk } ∷ leftover

  -- `if (!_variables) config_init();`
  unfoldable pub initialised : Variables → Variables
  unfolding config_init
  initialised [] = config_init
  initialised (v ∷ vs) = v ∷ vs

  -- `v->next = _variables->next; _variables->next = v;`
  unfoldable pub insert : ConfigPath → Variables → Variables
  insert path [] = []
  insert path (v ∷ vs) = v ∷ record { path = path; type = no_type; value = junk } ∷ vs

  unfoldable pub config_get_or_create : ConfigPath → Variables → Variables
  unfolding initialised insert
  config_get_or_create path vs =
      let ws = initialised vs in
      elim (config_resolve path ws) [ some v ↦ ws | none ↦ insert path ws ]

  unfoldable pub config_set_integer : ConfigPath → ℕ → Variables → Variables
  unfolding config_get_or_create
  config_set_integer path i vs = update path (assign 1 (λ old. i)) (config_get_or_create path vs)

  -- Writing a character leaves the other bytes of the union.
  unfoldable pub config_set_char : ConfigPath → ℕ → Variables → Variables
  unfolding config_get_or_create
  config_set_char path c vs =
      update path (assign 2 (λ old. old - old % 256 + c % 256)) (config_get_or_create path vs)

  -- `s` is the pointer.
  unfoldable pub config_set_string : ConfigPath → ℕ → Variables → Variables
  unfolding config_get_or_create
  config_set_string path s vs = update path (assign 0 (λ old. s)) (config_get_or_create path vs)
