-- ===== src/Int/Irq/Dispatch.antt =====
-- Which handler an interrupt reaches after calls of irq_register.
use limix.Base.{
  ℕ, ◌^◌, ◌<◌, ◌≡◌, refl, arith, Bool, true, false, ◌==◌, if◌then◌else◌, Option, none, some, List,
  [], ◌∷◌, bit_and, Bool-cases, not, ◌⊎◌, inl, inr,
}
use native.Mathlib.Nat.{one-le-pow}
use limix.Base.Bits.{bit_and-bit}
use limix.Hw.Pic.Bits.{bit}
use limix.Hw.Ports.{Ports}
use limix.Hw.Pic.{pic_get_isr, pic_send_eoi}
use limix.Int.Irq.{Handlers, irq_init, irq_register, irq_handler}

-- The calls, the latest first, each with the handler and its line.
abbrev pub register_all : List (ℕ × ℕ) → Handlers → Handlers
register_all [] h = irq_init h
register_all ((handler, irq) ∷ calls) h = irq_register handler irq (register_all calls h)

abbrev pub latest : List (ℕ × ℕ) → ℕ → Option ℕ
latest [] line = none
latest ((handler, irq) ∷ calls) line = if irq == line then some handler else latest calls line

abbrev pub AllFunctions : List (ℕ × ℕ) → Type 0
AllFunctions [] = Unit
AllFunctions ((handler, irq) ∷ calls) = (0 < handler) × AllFunctions calls

register_all-latest :
    (calls : List (ℕ × ℕ)) (h : Handlers) (line : ℕ)
    → AllFunctions calls
    → (latest calls line ≡ none) × (register_all calls h line ≡ 0)
      ⊎ ((f : ℕ) × (latest calls line ≡ some f) × (register_all calls h line ≡ f) × (0 < f))
unfolding irq_init irq_register
register_all-latest [] h line all = inl (refl, refl)
register_all-latest ((handler, irq) ∷ calls) h line (small, all) = elim (Bool-cases (irq == line)) [
  | inl e ↦ inr (handler, rw e refl, ground arith, small)
  | inr e ↦
      let d : (line == irq) ≡ false = ground arith in
      rw (e, d) (register_all-latest calls h line all)
]

bit_and-in_service : (irq v : ℕ) → (bit_and v (2 ^ irq) == 0) ≡ not (bit irq v)
bit_and-in_service irq v = ground (arith, bit_and-bit irq v, one-le-pow irq 2 (omega arith))

-- What an interrupt on a line does, once the line is known to be in service.
abbrev pub answer : (P : Ports) → (ℕ → P.State → P.State) → ℕ → Option ℕ → P.State → P.State
answer P call irq none s = pic_send_eoi P irq s
answer P call irq (some f) s = call f s

answered :
    (P : Ports) (call : ℕ → P.State → P.State) (irq v f : ℕ) (l : Option ℕ) (s : P.State)
    → (l ≡ none) × (f ≡ 0) ⊎ ((g : ℕ) × (l ≡ some g) × (f ≡ g) × (0 < g))
    → (if bit_and v (2 ^ irq) == 0 then s else if f == 0 then pic_send_eoi P irq s else call f s)
      ≡ (if bit irq v then answer P call irq l s else s)
answered P call irq v f l s (inl (e, z)) =
    rw (e, z, bit_and-in_service irq v) (not_swap (bit irq v))
  where
    not_swap :
        (b : Bool)
        → (if not b then s else pic_send_eoi P irq s) ≡ (if b then pic_send_eoi P irq s else s)
    not_swap true = refl
    not_swap false = refl
answered P call irq v f l s (inr (g, e, z, small)) =
    let d : (g == 0) ≡ false = ground arith in
    rw (e, z, d, bit_and-in_service irq v) (not_swap (bit irq v))
  where
    not_swap : (b : Bool) → (if not b then s else call g s) ≡ (if b then call g s else s)
    not_swap true = refl
    not_swap false = refl

-- After irq_init and any calls of irq_register, with functions that are not null, irq_handler reads
-- the lines in service. On a line in service it runs the function that was registered last for it,
-- or ends the interrupt where there is none; on any other line it does no more.
pub irq_handler-latest :
    (P : Ports) (call : ℕ → P.State → P.State) (calls : List (ℕ × ℕ)) (h : Handlers) (irq : ℕ)
    (s : P.State)
    → AllFunctions calls
    → irq_handler P call (register_all calls h) irq s ≡ (
        if bit irq (pic_get_isr P s).0
        then answer P call irq (latest calls irq) (pic_get_isr P s).1
        else (pic_get_isr P s).1)
unfolding irq_handler
irq_handler-latest P call calls h irq s all =
    answered P call irq (pic_get_isr P s).0 (register_all calls h irq) (latest calls irq)
      (pic_get_isr P s).1 (register_all-latest calls h irq all)
