-- ===== src/Hw/Kb/Tests.antt =====
-- The keyboard at concrete inputs.
use limix.Base.{◌^◌, ◌+◌, true, false, ◌≡◌, refl}
use limix.Hw.Kb.{
  Kb, kb_init, kb_get_key, kb_internal_set_key, kb_key_rshift, kb_key_alt, mods_of, kb_get_mods,
}

abbrev pressed : Kb
pressed = kb_internal_set_key kb_key_alt true (
    kb_internal_set_key kb_key_rshift true (
      kb_init (record {
        key_state = λ k. true;
        caps_lock = true;
        num_lock = false;
        scroll_lock = false;
      })))

kb_get_mods-pressed : kb_get_mods pressed ≡ 2 ^ 0 + 2 ^ 1 + 2 ^ 4 + 2 ^ 5 + 2 ^ 7
unfolding kb_get_mods mods_of kb_get_key kb_internal_set_key kb_init
kb_get_mods-pressed = refl

kb_get_mods-kb_internal_set_key :
    kb_get_mods (kb_internal_set_key kb_key_alt false pressed) ≡ 2 ^ 0 + 2 ^ 4 + 2 ^ 7
unfolding kb_get_mods mods_of kb_get_key kb_internal_set_key kb_init
kb_get_mods-kb_internal_set_key = refl
