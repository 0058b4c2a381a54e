-- ===== src/Int/Irq/Tests.antt =====
-- Two controllers with line 1 in service, and a machine that notes what is done.
use limix.Base.{ℕ, ◌+◌, ◌*◌, ◌≡◌, refl, ◌==◌, if◌then◌else◌, List, [], ◌∷◌}
use limix.Hw.Ports.{Ports}
use limix.Hw.Pic.{pic_get_isr}
use limix.Int.Irq.Dispatch.{latest, answer}

-- The bytes written, and the functions called at 1000 and up.
abbrev noting : Ports
noting = record {
  State = List ℕ;
  outb = λ port v s. (port * 256 + v) ∷ s;
  inb = λ port s. (if port == 0x20 then 2 else 0, s);
}

abbrev calls : List (ℕ × ℕ)
calls = (5, 1) ∷ (7, 1) ∷ (9, 4) ∷ []

abbrev run_function : ℕ → List ℕ → List ℕ
run_function f s = f ∷ s

calls_the_latest :
    answer noting run_function 1 (latest calls 1) (pic_get_isr noting []).1
    ≡ 5 ∷ (0xa0 * 256 + 0x0b) ∷ (0x20 * 256 + 0x0b) ∷ []
unfolding pic_get_isr
calls_the_latest = refl
