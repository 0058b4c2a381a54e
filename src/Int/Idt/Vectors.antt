-- ===== src/Int/Idt/Vectors.antt =====
-- What the processor finds behind each vector.
use limix.Base.{
  ℕ, zero, suc, ◌+◌, ◌-◌, ◌*◌, ◌/◌, ◌%◌, ◌^◌, ◌<◌, ◌≤◌, ◌≡◌, ◌∙◌, ap, arith, ◌&&◌, ◌==◌, ltb, leb,
  if◌then◌else◌, Option, none, some,
}
use limix.Int.Idt.{
  IdtGate, Idt, Stubs, idt_add_handler, add_stubs, isr_init, panic_init, idt_load, idt_init,
  irq_attach, zero_gate,
}

-- The processor reads the address in its three parts, the privilege in bits 5 and 6 and the present
-- flag in bit 7.
abbrev pub gate_target : IdtGate → Option (ℕ × ℕ)
gate_target g =
    if leb 0x80 g.flags
    then some (g.offset_low + g.offset_mid * 2 ^ 16 + g.offset_high * 2 ^ 32, g.flags / 2 ^ 5 % 4)
    else none

-- The address and the privilege that each vector is meant to have.
abbrev pub vector_target : Stubs → ℕ → Option (ℕ × ℕ)
vector_target k v =
    if ltb v 0x20
    then some (k.isr_stub_table v, 0)
    else if ltb v 0x30
    then some (k.irq_stub_table (v - 0x20), 0)
    else if v == 0x40
    then some (k.panic, 0)
    else if v == 0x80
    then some (k.syscall, 3)
    else none

-- Addresses have 64 bits.
pub record AreAddresses (k : Stubs) : Type 0 where
  pub isr_small : (i : ℕ) → k.isr_stub_table i < 2 ^ 64
  pub irq_small : (i : ℕ) → k.irq_stub_table i < 2 ^ 64
  pub panic_small : k.panic < 2 ^ 64
  pub syscall_small : k.syscall < 2 ^ 64

abbrev pub target_of : ℕ → Idt → Option (ℕ × ℕ)
target_of v s = gate_target (s.g_idt v)

-- A gate that was added, and the others.
target-add_handler :
    (v id handler flags : ℕ) (s : Idt)
    → id < 256
    → 0x80 ≤ flags
    → flags < 256
    → handler < 2 ^ 64
    → target_of v (idt_add_handler id handler flags 0 s)
      ≡ (if v == id then some (handler, flags / 2 ^ 5 % 4) else target_of v s)
unfolding idt_add_handler
target-add_handler v id handler flags s i p f h = ground (arith, i, p, f, h)

target-add_stubs :
    (left i first flags v : ℕ) (table : ℕ → ℕ) (s : Idt)
    → first + i + left ≤ 256
    → 0x80 ≤ flags
    → flags < 256
    → ((j : ℕ) → table j < 2 ^ 64)
    → target_of v (add_stubs left i first table flags s) ≡ (
        if leb (first + i) v && ltb v (first + i + left)
        then some (table (v - first), flags / 2 ^ 5 % 4)
        else target_of v s)
unfolding add_stubs
target-add_stubs zero i first flags v table s b p f t = ground (arith)
target-add_stubs (suc left) i first flags v table s b p f t =
    target-add_stubs left (i + 1) first flags v table
      (idt_add_handler (first + i) (table i) flags 0 s) (omega arith) p f t
    ∙ ap
        (λ (x : Option (ℕ × ℕ)).
          if leb (first + (i + 1)) v && ltb v (first + (i + 1) + left)
          then some (table (v - first), flags / 2 ^ 5 % 4)
          else x)
        (target-add_handler v (first + i) (table i) flags s (omega arith) p f (t i))
    ∙ added
  where
    added :
        (if leb (first + (i + 1)) v && ltb v (first + (i + 1) + left)
          then some (table (v - first), flags / 2 ^ 5 % 4)
          else (if v == first + i then some (table i, flags / 2 ^ 5 % 4) else target_of v s))
        ≡ (if leb (first + i) v && ltb v (first + i + suc left)
            then some (table (v - first), flags / 2 ^ 5 % 4)
            else target_of v s)
    added = ground arith

abbrev blank : Idt → Idt
blank s = record s { g_idt = λ v. zero_gate }

abbrev exceptions : Stubs → ℕ → Option (ℕ × ℕ)
exceptions k v = if ltb v 0x20 then some (k.isr_stub_table v, 0) else none

abbrev with_panic : Stubs → ℕ → Option (ℕ × ℕ)
with_panic k v = if v == 0x40 then some (k.panic, 0) else exceptions k v

module _ (k : Stubs) (s : Idt) (v : ℕ) (a : AreAddresses k) where
  isr_init-target : target_of v (isr_init k (blank s)) ≡ exceptions k v
  unfolding isr_init
  isr_init-target =
      target-add_stubs 32 0 0 0x8e v k.isr_stub_table (blank s) (omega arith) (omega arith)
        (omega arith) (λ i. a.isr_small i)
      ∙ ground arith

  panic_init-target : target_of v (panic_init k (isr_init k (blank s))) ≡ with_panic k v
  unfolding panic_init
  panic_init-target =
      target-add_handler v 0x40 k.panic 0x8e (isr_init k (blank s)) (omega arith) (omega arith)
        (omega arith) a.panic_small
      ∙ ap (λ (x : Option (ℕ × ℕ)). if v == 0x40 then some (k.panic, 0) else x) isr_init-target

  idt_init-target :
      target_of v (idt_init k s) ≡ (if v == 0x80 then some (k.syscall, 3) else with_panic k v)
  unfolding idt_init idt_load
  idt_init-target =
      target-add_handler v 0x80 k.syscall 0xee (panic_init k (isr_init k (blank s))) (omega arith)
        (omega arith) (omega arith) a.syscall_small
      ∙ ap (λ (x : Option (ℕ × ℕ)). if v == 0x80 then some (k.syscall, 3) else x) panic_init-target

  -- After idt_init and irq_attach, with addresses of 64 bits, each vector leads where it is meant to:
  -- an exception and an interrupt line to its stub, 0x40 to the panic, and 0x80 to the system call,
  -- which alone has privilege 3; no other vector is present.
  pub irq_attach-idt_init : target_of v (irq_attach k (idt_init k s)) ≡ vector_target k v
  unfolding irq_attach
  irq_attach-idt_init =
      target-add_stubs 16 0 0x20 0x8e v k.irq_stub_table (idt_init k s) (omega arith) (omega arith)
        (omega arith) (λ i. a.irq_small i)
      ∙ ap
          (λ (x : Option (ℕ × ℕ)).
            if leb 0x20 v && ltb v 0x30 then some (k.irq_stub_table (v - 0x20), 0) else x)
          idt_init-target
      ∙ ground arith
