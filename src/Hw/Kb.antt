-- ===== src/Hw/Kb.antt =====
-- kernel/src/hw/hid/kb/kb.c: the state of the keyboard.
pub mod Mods
mod Tests
use limix.Base.{ℕ, ◌%◌, ◌^◌, Bool, true, false, ◌==◌, if◌then◌else◌, bit_or}

-- The static variables; a key is a u8.
pub record Kb : Type 0 where
  pub key_state : ℕ → Bool
  pub caps_lock : Bool
  pub num_lock : Bool
  pub scroll_lock : Bool

unfoldable pub kb_init : Kb → Kb
kb_init s = record s { key_state = λ k. false }

unfoldable pub kb_get_key : ℕ → Kb → Bool
kb_get_key k s = s.key_state (k % 256)

unfoldable pub kb_internal_set_key : ℕ → Bool → Kb → Kb
kb_internal_set_key key state s = record s {
  key_state = λ k. if k == key % 256 then state else s.key_state k;
}

abbrev pub kb_key_lshift : ℕ
kb_key_lshift = 128

abbrev pub kb_key_rshift : ℕ
kb_key_rshift = 139

abbrev pub kb_key_lctrl : ℕ
kb_key_lctrl = 160

abbrev pub kb_key_alt : ℕ
kb_key_alt = 163

abbrev pub kb_key_altgr : ℕ
kb_key_altgr = 165

abbrev pub kb_key_rctrl : ℕ
kb_key_rctrl = 166

-- `if (b) s |= m;`
abbrev pub add_mods : Bool → ℕ → ℕ → ℕ
add_mods b m s = if b then bit_or s m else s

-- The nine tests of kb_get_mods, in order.
unfoldable pub mods_of : Bool → Bool → Bool → Bool → Bool → Bool → Bool → Bool → Bool → ℕ
mods_of caps num scroll lshift rshift alt altgr lctrl rctrl =
    add_mods rctrl (bit_or (2 ^ 8) (2 ^ 10)) (
      add_mods lctrl (bit_or (2 ^ 8) (2 ^ 9)) (
        add_mods altgr (bit_or (2 ^ 1) (2 ^ 3)) (
          add_mods alt (bit_or (2 ^ 1) (2 ^ 5)) (
            add_mods rshift (bit_or (2 ^ 0) (2 ^ 4)) (
              add_mods lshift (bit_or (2 ^ 0) (2 ^ 2))
                (add_mods scroll (2 ^ 11) (add_mods num (2 ^ 6) (add_mods caps (2 ^ 7) 0))))))))

unfoldable pub kb_get_mods : Kb → ℕ
unfolding mods_of kb_get_key
kb_get_mods s =
    mods_of s.caps_lock s.num_lock s.scroll_lock (kb_get_key kb_key_lshift s)
      (kb_get_key kb_key_rshift s) (kb_get_key kb_key_alt s) (kb_get_key kb_key_altgr s)
      (kb_get_key kb_key_lctrl s) (kb_get_key kb_key_rctrl s)
