-- ===== src/Hw/Ps2/Tests.antt =====
-- A controller as a queue of answers and a configuration byte.
use limix.Base.{
  ℕ, ◌%◌, ◌≡◌, refl, arith, Bool, true, false, ◌==◌, if◌then◌else◌, List, [], ◌∷◌, ◌++◌, bit_and,
}
use mathlib.Core.List.{append-nil}
use limix.Base.Run.{ok}
use limix.Hw.Ports.{Ports}
use limix.Hw.Ps2.{Ps2, ps2_init}
use limix.Hw.Ps2.Device.{Controller}
use limix.Hw.Ps2.Start.{found_ports, ps2_init-found_ports}

record Chip : Type 0 where
  output : List ℕ
  config : ℕ
  awaits : Bool

abbrev first : List ℕ → ℕ
first [] = 0
first (x ∷ xs) = x

abbrev others : List ℕ → List ℕ
others [] = []
others (x ∷ xs) = xs

abbrev answers : ℕ → Chip → List ℕ
answers command s =
    if command == 0x20
    then s.config % 256 ∷ []
    else if command == 0xaa
    then 0x55 ∷ []
    else if command == 0xab
    then 0 ∷ []
    else if command == 0xa9
    then 1 ∷ []
    else []

abbrev status_of : List ℕ → ℕ
status_of [] = 0
status_of (x ∷ xs) = 1

abbrev chip : Ports
chip = record {
  State = Chip;
  outb = λ port v s.
      if port == 0x64
      then record s { output = s.output ++ answers v s; awaits = v == 0x60 }
      else record s { config = if s.awaits then v else s.config; awaits = false };
  inb = λ port s.
      if port == 0x64
      then (status_of s.output, s)
      else if port == 0x60
      then (first s.output, record s { output = others s.output })
      else (0, s);
}

append_none : (xs : List ℕ) → xs ++ [] ≡ xs
append_none xs = simp append-nil

abbrev device : Controller chip
device = record {
  output = λ s. s.output;
  ccb = λ s. s.config % 256;
  status = λ s. status_of s.output;
  self_test = 0x55;
  port1_test = 0;
  port2_test = 1;
  read_status = λ s. refl;
  status_none = λ s e. rw e refl;
  status_some = λ x xs s e. rw e refl;
  status_free = λ s. free s.output;
  read_output = λ x xs s e. rw e (refl, refl, refl);
  ccb_byte = λ s. omega arith;
  waits = λ s. (refl, refl);
  disables1 = λ s. append_none s.output;
  disables2 = λ s. append_none s.output;
  enables2 = λ s. append_none s.output;
  tells_ccb = λ s. refl;
  tests = λ s. refl;
  tests1 = λ s. refl;
  tests2 = λ s. refl;
  keeps = λ command s d. refl;
  writes_ccb = λ v s l. (append_none s.output, omega arith);
}
  where
    free : (xs : List ℕ) → bit_and (status_of xs) 2 ≡ 0
    free [] = refl
    free (x ∷ xs) = refl

abbrev at_boot : Chip
at_boot = record { output = 7 ∷ 8 ∷ []; config = 0x67; awaits = false }

abbrev unknown : Ps2
unknown = record { dual_channel = true; port1_available = false; port2_available = false }

ps2_init-found_ports_example :
    (s1 : Chip) × (ps2_init chip 4 unknown at_boot ≡ ok (found_ports chip device 0x67 unknown, s1))
    × (s1.output ≡ [])
    × (◌≡◌ {A = ℕ} 0x55 0x55 → bit_and (s1.config % 256) 0x43 ≡ 0)
ps2_init-found_ports_example = ps2_init-found_ports chip device 3 unknown at_boot (omega arith)

keyboard_only :
    found_ports chip device 0x67 unknown
    ≡ record { dual_channel = true; port1_available = true; port2_available = false }
keyboard_only = refl
