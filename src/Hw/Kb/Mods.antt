-- ===== src/Hw/Kb/Mods.antt =====
-- The bits of the modifiers.
use limix.Base.{
  ℕ, ◌/◌, ◌%◌, ◌^◌, ◌<◌, ◌≡◌, refl, sym, arith, Bool, true, false, not, ◌&&◌, ◌||◌, ◌==◌,
  if◌then◌else◌, holds_below, holds_below-lt,
}
use limix.Hw.Kb.{
  Kb, kb_get_key, kb_key_lshift, kb_key_rshift, kb_key_lctrl, kb_key_alt, kb_key_altgr,
  kb_key_rctrl, mods_of, kb_get_mods,
}

abbrev pub bit : ℕ → ℕ → Bool
bit j v = v / 2 ^ j % 2 == 1

-- The keys behind each bit.
abbrev pub meaning : Bool → Bool → Bool → Bool → Bool → Bool → Bool → Bool → Bool → ℕ → Bool
meaning caps num scroll lshift rshift alt altgr lctrl rctrl j =
    if j == 0
    then lshift || rshift
    else if j == 1
    then alt || altgr
    else if j == 2
    then lshift
    else if j == 3
    then altgr
    else if j == 4
    then rshift
    else if j == 5
    then alt
    else if j == 6
    then num
    else if j == 7
    then caps
    else if j == 8
    then lctrl || rctrl
    else if j == 9
    then lctrl
    else if j == 10
    then rctrl
    else if j == 11
    then scroll
    else false

same : Bool → Bool → Bool
same true b = b
same false b = not b

same_eq : (a b : Bool) → same a b ≡ true → a ≡ b
unfolding same
same_eq true true h = refl
same_eq true false h = sym h
same_eq false true h = h
same_eq false false h = refl

both : (Bool → Bool) → Bool
both f = f true && f false

and_left : (a b : Bool) → (a && b) ≡ true → a ≡ true
and_left true b h = refl
and_left false b h = h

and_right : (a b : Bool) → (a && b) ≡ true → b ≡ true
and_right true b h = h
and_right false b h = absurd (ground (arith, h))

both_lem : (f : Bool → Bool) (b : Bool) → both f ≡ true → f b ≡ true
unfolding both
both_lem f true h = and_left (f true) (f false) h
both_lem f false h = and_right (f true) (f false) h

test : Bool → Bool → Bool → Bool → Bool → Bool → Bool → Bool → Bool → Bool
test a b c d e f g h i =
    holds_below 16 λ j. same (bit j (mods_of a b c d e f g h i)) (meaning a b c d e f g h i j)

table :
    both (λ a.
      both λ b.
        both λ c. both λ d. both λ e. both λ f. both λ g. both λ h. both (test a b c d e f g h))
    ≡ true
unfolding both test same holds_below mods_of
table = refl

test_all : (a b c d e f g h i : Bool) → test a b c d e f g h i ≡ true
test_all a b c d e f g h i = both_lem (test a b c d e f g h) i (
    both_lem (λ h. both (test a b c d e f g h)) h
      (both_lem (λ g. both λ h. both (test a b c d e f g h)) g
        (both_lem (λ f. both λ g. both λ h. both (test a b c d e f g h)) f
          (both_lem (λ e. both λ f. both λ g. both λ h. both (test a b c d e f g h)) e
            (both_lem (λ d. both λ e. both λ f. both λ g. both λ h. both (test a b c d e f g h)) d
              (both_lem
                (λ c. both λ d. both λ e. both λ f. both λ g. both λ h. both (test a b c d e f g h))
                c
                (both_lem
                  (λ b. both λ c.
                    both λ d. both λ e. both λ f. both λ g. both λ h. both (test a b c d e f g h))
                  b
                  (both_lem
                    (λ a. both λ b. both λ c.
                      both λ d. both λ e. both λ f. both λ g. both λ h. both (test a b c d e f g h))
                    a table))))))))

mods_of-bit :
    (a b c d e f g h i : Bool) (j : ℕ)
    → j < 16
    → bit j (mods_of a b c d e f g h i) ≡ meaning a b c d e f g h i j
unfolding test
mods_of-bit a b c d e f g h i j below =
    same_eq (bit j (mods_of a b c d e f g h i)) (meaning a b c d e f g h i j) (
      holds_below-lt 16
        (λ j. same (bit j (mods_of a b c d e f g h i)) (meaning a b c d e f g h i j)) j
        (test_all a b c d e f g h i) below)

-- Bit j of the modifiers, for j below 16, is set exactly where its lock or one of its keys is, with
-- KB_KEY_ALT as the right Alt key and KB_KEY_ALTGR as the left one.
pub kb_get_mods-bit :
    (s : Kb) (j : ℕ)
    → j < 16
    → bit j (kb_get_mods s)
      ≡ meaning s.caps_lock s.num_lock s.scroll_lock
          (kb_get_key kb_key_lshift s)
          (kb_get_key kb_key_rshift s)
          (kb_get_key kb_key_alt s)
          (kb_get_key kb_key_altgr s)
          (kb_get_key kb_key_lctrl s)
          (kb_get_key kb_key_rctrl s)
          j
unfolding kb_get_mods
kb_get_mods-bit s j below =
    mods_of-bit s.caps_lock s.num_lock s.scroll_lock (kb_get_key kb_key_lshift s)
      (kb_get_key kb_key_rshift s) (kb_get_key kb_key_alt s) (kb_get_key kb_key_altgr s)
      (kb_get_key kb_key_lctrl s) (kb_get_key kb_key_rctrl s) j below
