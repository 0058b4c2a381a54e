-- ===== src/Config/Tests.antt =====
-- The theorems about the configuration at one that holds a single integer.
use limix.Base.{◌≡◌, refl, arith, [], ◌∷◌, some}
use limix.Config.{
  ConfigVariable, Variables, no_type, config_resolve, config_get_integer, config_set_integer,
}
use limix.Config.SetGet.{Accepts, config_get_integer-set}

abbrev sentinel : ConfigVariable
sentinel = record { path = 0; type = no_type; value = 7 }

-- CONFIG_VT_SCROLL as an integer, and CONFIG_VFS_PATHSEP as a character.
abbrev scroll : ConfigVariable
scroll = record { path = 1; type = 1; value = 4 }

abbrev separator : ConfigVariable
separator = record { path = 2; type = 2; value = 47 }

abbrev variables : Variables
variables = scroll ∷ separator ∷ []

resolve_scroll : config_resolve 1 (sentinel ∷ variables) ≡ some scroll
unfolding config_resolve
resolve_scroll = refl

scroll-Accepts : Accepts 1 1 (sentinel ∷ variables)
unfolding config_resolve
scroll-Accepts v e = ground (arith, e)

sentinel-Accepts : Accepts 0 0 (sentinel ∷ variables)
unfolding config_resolve
sentinel-Accepts v e = ground (arith, e)

separator-Accepts : Accepts 2 2 (sentinel ∷ variables)
unfolding config_resolve
separator-Accepts v e = ground (arith, e)

config_get_integer-set_example :
    config_get_integer 1 (config_set_integer [] 9 1 6 (sentinel ∷ variables)) ≡ some 6
config_get_integer-set_example = config_get_integer-set [] 9 sentinel variables 1 6 scroll-Accepts
